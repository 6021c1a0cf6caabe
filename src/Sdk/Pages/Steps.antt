-- ===== src/Sdk/Pages/Steps.antt =====
-- The client's iteration over the history reads what asking again with each next cursor reads.
use beacn.Base.{
  ℕ, zero, suc, ◌+◌, ◌-◌, ◌≤◌, ◌≢◌, subst, fun_ext, ◌≡◌, refl, ap, sym, ◌∙◌, ◌⊎◌, inl, inr, Bool,
  true, false, String, List, [], ◌∷◌, ◌++◌, Option, none, some, arith, map, length, length-append,
  take, last?, keep, ltb, ltb→lt, ◌==◌, eq_iff, Bool-cases, if◌then◌else◌,
}
use beacn.Events.Wire.{EventRow, Wire, stored_wire}
use beacn.Store.{Table}
use beacn.History.{
  HistoryQuery, row_id, EventPage, query, query_rows, matches_query, clamped_limit, descending_of,
  in_order, before_in, read_all,
}
use beacn.History.Complete.{clamped_limit_bounds}
use beacn.Api.Lists.{Parameters}
use beacn.Sdk.Pages.{complete, raised, Iterated, with_cursor, next, autopage}
use beacn.Paging.{Page, page_of, key_of_last, behind}

-- The last of a list that is not empty.
last?-some : {A : Type 0} (x : A) (xs : List A) → (y : A) × (last? (x ∷ xs) ≡ some y)
last?-some x [] = (x, refl)
last?-some x (y ∷ xs) = last?-some y xs

-- A page with more behind it names its cursor and has a row; any other names none.
pub data Continues {A : Type 0} (page : Page A) : Type 0 where
  more_behind :
      (c : String)
      → page.has_more ≡ true
      → page.next_cursor ≡ some c
      → 1 ≤ length page.items
      → Continues page
  last_page : page.has_more ≡ false → page.next_cursor ≡ none → Continues page

page_of-Continues :
    {A : Type 0} (key : A → String) (n : ℕ) (rows : List A) → Continues (page_of key (suc n) rows)
unfolding page_of
page_of-Continues {A} key n rows = go (take (suc n + 1) rows) (Bool-cases _)
  where
    go :
        (fetched : List A)
        → (ltb (suc n) (length fetched) ≡ true) ⊎ (ltb (suc n) (length fetched) ≡ false)
        → Continues {A = A} (record {
          items = take (suc n) fetched;
          has_more = ltb (suc n) (length fetched);
          next_cursor =
              if ltb (suc n) (length fetched)
              then key_of_last key (last? (take (suc n) fetched))
              else none;
        })
    go [] (inl more) = let many = ltb→lt (suc n) (length {A = A} []) more in absurd (omega arith)
    go [] (inr done) = last_page done (rw done refl)
    go (x ∷ xs) (inl more) =
        let (y, last) = last?-some x (take n xs) in
        more_behind (key y) more (rw more (ap (key_of_last key) last)) (omega arith)
    go (x ∷ xs) (inr done) = last_page done (rw done refl)

pub with_cursor_twice :
    (d c : Option String) (params : Parameters) (key : String)
    → with_cursor d (with_cursor c params) key ≡ with_cursor d params key
with_cursor_twice d c params key = elim (Bool-cases (key == "cursor")) [
  | inl is_cursor ↦ rw is_cursor refl
  | inr other ↦ rw other refl
]

pub with_own_cursor :
    (params : Parameters) (key : String) → with_cursor (params "cursor") params key ≡ params key
with_own_cursor params key = elim (Bool-cases (key == "cursor")) [
  | inl is_cursor ↦
      let named : key ≡ "cursor" = ground (arith, eq_iff key "cursor") in
      rw is_cursor (ap params (sym named))
  | inr other ↦ rw other refl
]

module _ (starts_with : String → String → Bool) where
  query-Continues :
      (q : HistoryQuery) (events : Table) → Continues (query_rows starts_with q events)
  unfolding query_rows
  query-Continues q events =
      let b = descending_of starts_with q in
      let rows =
        keep (behind row_id (before_in starts_with b) q.cursor)
          (keep (matches_query starts_with q) (in_order starts_with b events)) in
      let size : clamped_limit q.limit ≡ suc (clamped_limit q.limit - 1) =
        omega (arith, (clamped_limit_bounds q.limit).0) in
      subst (λ l. Continues (page_of row_id l rows)) (sym size)
        (page_of-Continues row_id (clamped_limit q.limit - 1) rows)

  -- What the iteration yields and how it ends, beside the pages as the service gives them.
  pub record Reads (fuel : ℕ) (all_read : List Wire) (result : Iterated) : Type 0 where
    pub same : result.events ≡ all_read
    pub no_error : result.ended ≢ raised
    pub or_many : (result.ended ≡ complete) ⊎ (fuel ≤ length result.events)

  pub length-map_wires :
      (rows : List EventRow) → length (map (stored_wire false) rows) ≡ length rows
  length-map_wires [] = refl
  length-map_wires (row ∷ rows) = ap suc (length-map_wires rows)

  yields-Reads :
      (fuel : ℕ) (rows : List EventRow) (all_read : List Wire) (result : Iterated)
      → 1 ≤ length rows
      → Reads fuel all_read result
      → Reads
          (suc fuel)
          (map (stored_wire false) rows ++ all_read)
          (record result { events = map (stored_wire false) rows ++ result.events })
  yields-Reads fuel rows all_read result some_rows r = record {
    same = ap (λ l. map (stored_wire false) rows ++ l) r.same;
    no_error = r.no_error;
    or_many = elim r.or_many [
      | inl done ↦ inl done
      | inr many ↦ inr (
          omega (
            arith,
            length-append (map (stored_wire false) rows) result.events,
            length-map_wires rows,
          ))
    ];
  }

  module _ (get : Parameters → Option (EventPage starts_with)) (q : HistoryQuery)
      (events : Table) where
    -- The answers of the route, for parameters that differ from each other by their cursors.
    abbrev pub Answers : Parameters → Option String → Type 0
    Answers params cursor =
        get params ≡ some (query starts_with false (record q { cursor = cursor }) events)

    pub autopage-Reads :
        (fuel : ℕ) (params : Parameters) (cursor : Option String)
        → ((c : Option String) → Answers (with_cursor c params) c)
        → Reads fuel (read_all starts_with fuel false (record q { cursor = cursor }) events) (
            autopage starts_with get fuel params
              (some (query starts_with false (record q { cursor = cursor }) events)))
    unfolding autopage next read_all query
    autopage-Reads zero params cursor answers = record {
      same = refl;
      no_error = λ h. absurd (cc);
      or_many = inr (omega arith);
    }
    autopage-Reads (suc fuel) params cursor answers =
        go (query-Continues (record q { cursor = cursor }) events) (λ c.
          subst
            (λ page.
              Reads fuel (read_all starts_with fuel false (record q { cursor = some c }) events)
                (autopage starts_with get fuel (with_cursor (some c) params) page))
            (sym (answers (some c)))
            (autopage-Reads fuel (with_cursor (some c) params) (some c)
              (λ d. ap get (fun_ext (with_cursor_twice d (some c) params)) ∙ answers d)))
      where
        go :
            Continues (query_rows starts_with (record q { cursor = cursor }) events)
            → ((c : String)
                → Reads fuel
                    (read_all starts_with fuel false (record q { cursor = some c }) events)
                    (autopage starts_with get fuel
                      (with_cursor (some c) params)
                      (get (with_cursor (some c) params))))
            → Reads
                (suc fuel)
                (read_all starts_with (suc fuel) false (record q { cursor = cursor }) events)
                (autopage starts_with get
                  (suc fuel)
                  params
                  (some (query starts_with false (record q { cursor = cursor }) events)))
        go (last_page done none_named) ih =
            rw (done, none_named)
              (record { same = refl; no_error = λ h. absurd (cc); or_many = inl refl })
        go (more_behind c more named rows) ih =
            rw (more, named)
              (yields-Reads fuel
                (query_rows starts_with (record q { cursor = cursor }) events).items
                (read_all starts_with fuel false (record q { cursor = some c }) events)
                (autopage starts_with get fuel (with_cursor (some c) params)
                  (get (with_cursor (some c) params)))
                rows (ih c))
