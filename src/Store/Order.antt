-- ===== src/Store/Order.antt =====
-- The table stays in the order of its ids, and a reading keeps that order, forwards or backwards.
use beacn.Base.{
  ◌≡◌, Bool, true, false, String, [], ◌∷◌, ◌++◌, some, arith, str_ltb, str_ltb_irrefl, str_ltb_asym,
  str_ltb_trans, str_ltb_total, ◌==◌, eq_iff, All, All-append, Pairwise, Bool-cases, Option-cases,
  inl, inr,
}
use mathlib.Core.Option.{some-injective}
use beacn.Events.Wire.{EventRow}
use beacn.Paging.Complete.{IsOrder}
use beacn.Store.{Table, create, backwards}

pub ascending : IsOrder str_ltb
ascending = record { irrefl = str_ltb_irrefl; asym = str_ltb_asym; trans = str_ltb_trans }

abbrev pub str_gtb : String → String → Bool
str_gtb s t = str_ltb t s

pub descending : IsOrder str_gtb
descending = record {
  irrefl = str_ltb_irrefl;
  asym = λ s t h. str_ltb_asym t s h;
  trans = λ s t u h k. str_ltb_trans u t s k h;
}

abbrev pub IsAscending : Table → Type 0
IsAscending = Pairwise (λ r s. str_ltb r.id s.id ≡ true)

abbrev pub IsDescending : Table → Type 0
IsDescending = Pairwise (λ r s. str_ltb s.id r.id ≡ true)

All-below :
    (row r : EventRow) (rows : Table)
    → str_ltb row.id r.id ≡ true
    → All (λ s. str_ltb r.id s.id ≡ true) rows
    → All (λ s. str_ltb row.id s.id ≡ true) rows
All-below row r [] h k = tt
All-below row r (s ∷ rows) h k = (str_ltb_trans row.id r.id s.id h k.0, All-below row r rows h k.1)

-- Where `create` puts a row: at the end of an empty table, above the first row, or behind it.
data Placed (row r : EventRow) (rows rows' : Table) : Type 0 where
  first : str_ltb row.id r.id ≡ true → rows' ≡ row ∷ r ∷ rows → Placed row r rows rows'
  later :
      (rest : Table)
      → str_ltb r.id row.id ≡ true
      → create row rows ≡ some rest
      → rows' ≡ r ∷ rest
      → Placed row r rows rows'

above :
    (row r : EventRow)
    → (row.id == r.id) ≡ false
    → str_ltb row.id r.id ≡ false
    → str_ltb r.id row.id ≡ true
above row r differs low = elim (Bool-cases (str_ltb r.id row.id)) [
  | inl h ↦ h
  | inr h ↦ absurd (cc ((eq_iff row.id r.id).1 (str_ltb_total row.id r.id low h)))
]

create-Placed :
    (row r : EventRow) (rows rows' : Table)
    → create row (r ∷ rows) ≡ some rows'
    → Placed row r rows rows'
unfolding create
create-Placed row r rows rows' e = elim (Bool-cases (row.id == r.id)) [
  | inl same ↦ absurd (ground arith)
  | inr differs ↦ elim (Bool-cases (str_ltb row.id r.id)) [
    | inl low ↦ first low (ground arith)
    | inr high ↦ elim (Option-cases (create row rows)) [
      | inl clash ↦ absurd (ground arith)
      | inr (rest, made) ↦ later rest (above row r differs high) made (ground arith)
    ]
  ]
]

-- What a new row and all rows of a table satisfy, all rows of the new table satisfy.
pub All-create :
    (P : EventRow → Type 0) (row : EventRow) (rows rows' : Table)
    → create row rows ≡ some rows'
    → P row
    → All P rows
    → All P rows'
All-create P row [] rows' e h k =
    let same : row ∷ [] ≡ rows' = some-injective _ _ (unfold create in e) in rw (← same) (h, tt)
All-create P row (r ∷ rows) rows' e h k =
    go (create-Placed row r rows rows' e) (λ rest made. All-create P row rows rest made h k.1)
  where
    go :
        Placed row r rows rows'
        → ((rest : Table) → create row rows ≡ some rest → All P rest)
        → All P rows'
    go (first low same) ih = rw same (h, k)
    go (later rest high made same) ih = rw same (k.0, ih rest made)

-- A row that is created leaves the table in the strict order of its ids.
pub create-IsAscending :
    (row : EventRow) (rows rows' : Table)
    → create row rows ≡ some rows'
    → IsAscending rows
    → IsAscending rows'
create-IsAscending row [] rows' e s =
    let same : row ∷ [] ≡ rows' = some-injective _ _ (unfold create in e) in rw (← same) (tt, tt)
create-IsAscending row (r ∷ rows) rows' e s =
    go (create-Placed row r rows rows' e) (λ rest made. create-IsAscending row rows rest made s.1)
  where
    go :
        Placed row r rows rows'
        → ((rest : Table) → create row rows ≡ some rest → IsAscending rest)
        → IsAscending rows'
    go (first low same) ih = rw same ((low, All-below row r rows low s.0), s)
    go (later rest high made same) ih =
        rw same
          (All-create (λ x. str_ltb r.id x.id ≡ true) row rows rest made high s.0, ih rest made)

pub All-backwards : (P : EventRow → Type 0) (rows : Table) → All P rows → All P (backwards rows)
unfolding backwards
All-backwards P [] h = tt
All-backwards P (r ∷ rows) h =
    All-append P (backwards rows) (r ∷ []) (All-backwards P rows h.1) (h.0, tt)

Pairwise-concat :
    (xs : Table) (r : EventRow)
    → IsDescending xs
    → All (λ x. str_ltb r.id x.id ≡ true) xs
    → IsDescending (xs ++ r ∷ [])
Pairwise-concat [] r s h = (tt, tt)
Pairwise-concat (x ∷ xs) r s h = (
  All-append (λ y. str_ltb y.id x.id ≡ true) xs (r ∷ []) s.0 (h.0, tt),
  Pairwise-concat xs r s.1 h.1,
)

pub backwards-IsDescending : (rows : Table) → IsAscending rows → IsDescending (backwards rows)
unfolding backwards
backwards-IsDescending [] s = tt
backwards-IsDescending (r ∷ rows) s =
    Pairwise-concat (backwards rows) r (backwards-IsDescending rows s.1)
      (All-backwards (λ x. str_ltb r.id x.id ≡ true) rows s.0)
