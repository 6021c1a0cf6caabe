-- ===== src/Bus/Memory.antt =====
-- The memory stays bounded, and what it took in is remembered for as many events as it holds.
use beacn.Base.{
  ℕ, ◌+◌, ◌≤◌, ◌<◌, ◌≡◌, refl, ap, ◌∙◌, true, false, String, List, [], ◌∷◌, ◌++◌, arith, ltb,
  length, length-append, length-drop, drop, elem, eq_refl, append_assoc, Bool-cases, inl, inr,
  ltb→lt, if◌then◌else◌,
}
use beacn.Bus.{add, add_all}

-- The memory never holds more ids than its capacity.
pub length-add :
    (capacity : ℕ) (key : String) (seen : List String)
    → length seen ≤ capacity
    → length (add capacity key seen).1 ≤ capacity
unfolding add
length-add capacity key seen h =
    ground (arith, length-append seen (key ∷ []), length-drop 1 (seen ++ key ∷ []))

-- The key stands in the memory, with at most `n` later ones behind it.
pub record Holds (key : String) (n : ℕ) (seen : List String) : Type 0 where
  pub before : List String
  pub after : List String
  pub split : seen ≡ before ++ key ∷ after
  pub few : length after ≤ n

elem-append : (key : String) (before after : List String) → elem key (before ++ key ∷ after) ≡ true
elem-append key [] after = rw (eq_refl key) refl
elem-append key (b ∷ before) after = ground (arith, elem-append key before after)

-- What is over the capacity is dropped from the front, which the key is not.
drop-Holds :
    (capacity n : ℕ) (key : String) (before after : List String)
    → length after ≤ n
    → n < capacity
    → capacity < length (before ++ key ∷ after)
    → Holds key n (drop 1 (before ++ key ∷ after))
drop-Holds capacity n key [] after few room over = absurd (omega arith)
drop-Holds capacity n key (b ∷ before) after few room over = record {
  before = before;
  after = after;
  split = refl;
  few = few;
}

put-Holds :
    (capacity n : ℕ) (key : String) (seen before after : List String)
    → seen ≡ before ++ key ∷ after
    → length after ≤ n
    → n < capacity
    → Holds key n (if ltb capacity (length seen) then drop 1 seen else seen)
put-Holds capacity n key seen before after split few room =
    elim (Bool-cases (ltb capacity (length seen))) [
      | inl over ↦
          rw (over, split)
            (drop-Holds capacity n key before after few room
              (omega (arith, ap (length {A = String}) split, ltb→lt capacity (length seen) over)))
      | inr fits ↦ rw fits (record { before = before; after = after; split = split; few = few })
    ]

add-Holds :
    (capacity n : ℕ) (key k : String) (seen : List String)
    → Holds key n seen
    → n + 1 < capacity
    → Holds key (n + 1) (add capacity k seen).1
unfolding add
add-Holds capacity n key k seen h room = elim (Bool-cases (elem k seen)) [
  | inl known ↦
      rw known
        (record { before = h.before; after = h.after; split = h.split; few = omega (arith, h.few) })
  | inr new ↦ rw new (
      put-Holds capacity (n + 1) key (seen ++ k ∷ []) h.before (h.after ++ k ∷ [])
        (ap (λ s. s ++ k ∷ []) h.split ∙ append_assoc h.before (key ∷ h.after) (k ∷ []))
        (omega (arith, h.few, length-append h.after (k ∷ []))) room)
]

add_all-elem :
    (capacity n : ℕ) (key : String) (keys seen : List String)
    → Holds key n seen
    → n + length keys < capacity
    → elem key (add_all capacity keys seen) ≡ true
unfolding add_all
add_all-elem capacity n key [] seen h room =
    ap (elem key) h.split ∙ elem-append key h.before h.after
add_all-elem capacity n key (k ∷ keys) seen h room =
    add_all-elem capacity (n + 1) key keys (add capacity k seen).1
      (add-Holds capacity n key k seen h (omega arith)) (omega arith)

add-elem :
    (capacity : ℕ) (key : String) (seen : List String)
    → elem key seen ≡ true
    → (add capacity key seen).0 ≡ false
unfolding add
add-elem capacity key seen h = rw (h, add) refl

-- An id that was new is recognised when it comes again, if fewer other ids than the capacity came in
-- between.
pub add-again :
    (capacity : ℕ) (key : String) (keys seen : List String)
    → (add capacity key seen).0 ≡ true
    → length keys < capacity
    → (add capacity key (add_all capacity keys (add capacity key seen).1)).0 ≡ false
unfolding add
add-again capacity key keys seen new room = elim (Bool-cases (elem key seen)) [
  | inl known ↦ let clash = rw known at new in absurd (cc)
  | inr fresh ↦
      let held : Holds key 0 (add capacity key seen).1 =
        rw (fresh, add)
          (put-Holds capacity 0 key (seen ++ key ∷ []) seen [] refl (omega arith) (omega arith)) in
      let there = add_all-elem capacity 0 key keys (add capacity key seen).1 held (omega arith) in
      add-elem capacity key (add_all capacity keys (add capacity key seen).1) there
]
