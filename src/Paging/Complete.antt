-- ===== src/Paging/Complete.antt =====
-- Following the cursor visits every row behind the first cursor exactly once, in order.
use beacn.Base.{
  ℕ, zero, suc, ◌+◌, ◌≤◌, ◌<◌, ◌≡◌, refl, ap, subst, ◌∙◌, sym, Bool, true, false, String, List, [],
  ◌∷◌, Option, none, some, arith, is_empty, ltb, length, take, drop, keep, last?, All, Pairwise,
  Bool-cases, inl, inr, take_all, length-take, length-drop, All-keep, take-append-drop, append-nil,
  ltb→lt, ltb-false→le, if◌then◌else◌,
}
use native.Mathlib.Numerals.{add-one}
use beacn.Paging.{page_of, behind, follow}

-- What the order of the rows has to satisfy.
pub record IsOrder (before : String → String → Bool) : Type 0 where
  pub irrefl : (s : String) → before s s ≡ false
  pub asym : (s t : String) → before s t ≡ true → before t s ≡ false
  pub trans : (s t u : String) → before s t ≡ true → before t u ≡ true → before s u ≡ true

module _ {A : Type 0} (key : A → String) (before : String → String → Bool)
    (o : IsOrder before) where
  abbrev pub InOrder : List A → Type 0
  InOrder = Pairwise (λ x y. before (key x) (key y) ≡ true)

  abbrev pub HaveKeys : List A → Type 0
  HaveKeys = All (λ x. is_empty (key x) ≡ false)

  All-last :
      (P : A → Type 0) (n : ℕ) (xs : List A) (r : A) → All P xs → last? (take n xs) ≡ some r → P r
  All-last P zero xs r h e = absurd (cc)
  All-last P (suc n) [] r h e = absurd (cc)
  All-last P (suc zero) (x ∷ xs) r h e = let same : x ≡ r = cc in rw (← same) h.0
  All-last P (suc (suc n)) (x ∷ []) r h e = let same : x ≡ r = cc in rw (← same) h.0
  All-last P (suc (suc n)) (x ∷ y ∷ xs) r h e = All-last P (suc n) (y ∷ xs) r h.1 e

  keep-All : (p : A → Bool) (xs : List A) → All (λ x. p x ≡ true) xs → keep p xs ≡ xs
  keep-All p [] h = refl
  keep-All p (x ∷ xs) h = rw (h.0, keep-All p xs h.1)

  -- Behind the last row of a page stand the rows that the page left out.
  keep-behind_last :
      (n : ℕ) (xs : List A) (r : A)
      → InOrder xs
      → last? (take (suc n) xs) ≡ some r
      → keep (λ x. before (key r) (key x)) xs ≡ drop (suc n) xs
  keep-behind_last n [] r s e = absurd (cc)
  keep-behind_last zero (x ∷ xs) r s e =
      let same : x ≡ r = cc in
      subst (λ z. keep (λ y. before (key z) (key y)) (x ∷ xs) ≡ xs) same
        (rw (o.irrefl (key x)) (keep-All (λ y. before (key x) (key y)) xs s.0))
  keep-behind_last (suc n) (x ∷ []) r s e = let same : x ≡ r = cc in rw (← same, o.irrefl (key x))
  keep-behind_last (suc n) (x ∷ y ∷ xs) r s e =
      let lower = All-last (λ z. before (key x) (key z) ≡ true) (suc n) (y ∷ xs) r s.0 e in
      rw (o.asym (key x) (key r) lower) (keep-behind_last n (y ∷ xs) r s.1 e)

  -- Filtering by a later cursor forgets the earlier one.
  keep-keep :
      (p q : A → Bool) (xs : List A)
      → ((x : A) → p x ≡ true → q x ≡ true)
      → keep p (keep q xs) ≡ keep p xs
  keep-keep p q [] h = refl
  keep-keep p q (x ∷ xs) h = elim (Bool-cases (q x)) [
    | inl kept ↦ rw kept (ap (λ ys. if p x then x ∷ ys else ys) (keep-keep p q xs h))
    | inr out ↦ ground (arith, keep-keep p q xs h, h x)
  ]

  pub All-keep_of {κ} : (P : A → Type κ) (p : A → Bool) (xs : List A) → All P xs → All P (keep p xs)
  All-keep_of P p [] h = tt
  All-keep_of P p (x ∷ xs) h = elim (Bool-cases (p x)) [
    | inl kept ↦ rw kept (h.0, All-keep_of P p xs h.1)
    | inr out ↦ rw out (All-keep_of P p xs h.1)
  ]

  pub keep-InOrder : (p : A → Bool) (xs : List A) → InOrder xs → InOrder (keep p xs)
  keep-InOrder p [] h = tt
  keep-InOrder p (x ∷ xs) h = elim (Bool-cases (p x)) [
    | inl kept ↦ rw kept (All-keep_of _ p xs h.0, keep-InOrder p xs h.1)
    | inr out ↦ rw out (keep-InOrder p xs h.1)
  ]

  take-take_more : (n : ℕ) (xs : List A) → take n (take (n + 1) xs) ≡ take n xs
  take-take_more n xs = rw add-one (go n xs)
    where
      go : (n : ℕ) (xs : List A) → take n (take (suc n) xs) ≡ take n xs
      go zero xs = refl
      go (suc n) [] = refl
      go (suc n) (x ∷ xs) = ap (λ ys. x ∷ ys) (go n xs)

  last_of_page :
      (n : ℕ) (xs : List A) → n < length xs → (r : A) × (last? (take (suc n) xs) ≡ some r)
  last_of_page n [] h = absurd (omega arith)
  last_of_page zero (x ∷ xs) h = (x, refl)
  last_of_page (suc n) (x ∷ []) h = absurd (omega arith)
  last_of_page (suc n) (x ∷ y ∷ xs) h = last_of_page n (y ∷ xs) (omega arith)

  -- A page that leaves nothing out.
  pub page_of_short :
      (limit : ℕ) (xs : List A)
      → length xs ≤ limit
      → page_of key limit xs ≡ record { items = xs; has_more = false; next_cursor = none }
  unfolding page_of
  page_of_short limit xs h =
      let fetched = take_all (limit + 1) xs (omega arith) in
      let whole = take_all limit xs h in
      let more : ltb limit (length xs) ≡ false = ground arith in rw (fetched, whole, more)

  -- A page that says so leaves nothing out.
  pub whole_page :
      (limit : ℕ) (xs : List A)
      → (page_of key limit xs).has_more ≡ false
      → page_of key limit xs ≡ record { items = xs; has_more = false; next_cursor = none }
  unfolding page_of
  whole_page limit xs h =
      page_of_short limit xs (omega (arith, ltb-false→le _ _ h, length-take (limit + 1) xs))

  -- A page that leaves rows out ends in a row, whose id is the next cursor.
  page_of_long :
      (n : ℕ) (xs : List A) (r : A)
      → suc n < length xs
      → last? (take (suc n) xs) ≡ some r
      → page_of key (suc n) xs
        ≡ record { items = take (suc n) xs; has_more = true; next_cursor = some (key r) }
  unfolding page_of
  page_of_long n xs r h e =
      let more : ltb (suc n) (length (take (suc n + 1) xs)) ≡ true =
        ground (arith, length-take (suc n + 1) xs) in
      rw (more, take-take_more (suc n) xs, e)

  behind_key :
      (c : Option String) (xs : List A) (r : A) (n : ℕ)
      → All (λ x. behind key before c x ≡ true) xs
      → last? (take n xs) ≡ some r
      → behind key before c r ≡ true
  behind_key c xs r n h e = All-last (λ x. behind key before c x ≡ true) n xs r h e

  -- A row behind a row that is behind the cursor is itself behind the cursor.
  behind_trans :
      (c : Option String) (r x : A)
      → behind key before c r ≡ true
      → before (key r) (key x) ≡ true
      → behind key before c x ≡ true
  behind_trans none r x h k = refl
  behind_trans (some c) r x h k = elim (Bool-cases (is_empty c)) [
    | inl bare ↦ rw bare refl
    | inr named ↦ rw named (o.trans c (key r) (key x) (rw named at h) k)
  ]

  module _ (rows : List A) (sorted : InOrder rows) (named : HaveKeys rows) where
    -- What stands behind the last row of a page is what the page left out.
    rest_of :
        (n : ℕ) (c : Option String) (r : A)
        → last? (take (suc n) (keep (behind key before c) rows)) ≡ some r
        → keep (behind key before (some (key r))) rows
          ≡ drop (suc n) (keep (behind key before c) rows)
    rest_of n c r e =
        let xs = keep (behind key before c) rows in
        let has_key : is_empty (key r) ≡ false =
          All-last (λ x. is_empty (key x) ≡ false) (suc n) xs r
            (All-keep_of (λ x. is_empty (key x) ≡ false) (behind key before c) rows named) e in
        let reached = behind_key c xs r (suc n) (All-keep (behind key before c) rows) e in
        ap (λ b. keep (λ x. if b then true else before (key r) (key x)) rows) has_key
        ∙ sym (
            keep-keep (λ x. before (key r) (key x)) (behind key before c) rows
              (λ x later. behind_trans c r x reached later))
        ∙ keep-behind_last n xs r (keep-InOrder (behind key before c) rows sorted) e

    -- A client that follows the cursor, with fuel for a page to each row and one more, receives
    -- exactly the rows behind its first cursor, each once and in order, whatever the page size.
    pub follow_complete :
        (fuel n : ℕ) (c : Option String)
        → length (keep (behind key before c) rows) < fuel
        → follow key before fuel (suc n) rows c ≡ keep (behind key before c) rows
    unfolding follow
    follow_complete zero n c h = absurd (omega arith)
    follow_complete (suc fuel) n c h =
        let xs = keep (behind key before c) rows in
        elim (Bool-cases (ltb (suc n) (length xs))) [
          | inr short ↦ rw (page_of_short (suc n) xs (ltb-false→le _ _ short)) (append-nil xs)
          | inl long ↦
              let (r, e) = last_of_page n xs (omega (arith, ltb→lt _ _ long)) in
              let rest = rest_of n c r e in
              let fewer : length (keep (behind key before (some (key r))) rows) < fuel =
                omega (arith, ap (length {A = A}) rest, length-drop (suc n) xs, ltb→lt _ _ long) in
              rw
                (
                  page_of_long n xs r (ltb→lt _ _ long) e,
                  follow_complete fuel n (some (key r)) fewer,
                  rest,
                )
                (take-append-drop (suc n) xs)
        ]
