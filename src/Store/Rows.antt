-- ===== src/Store/Rows.antt =====
-- A table whose rows have a key: what an UPDATE by key and an INSERT do to the row of each key,
-- and how many rows they reach.
use mathlib.Core.List.{Memᴰ}
use coworker.Prelude.{
  ℕ, String, subst, ◌≡◌, refl, Bool, true, false, ◌&&◌, Option, none, some, List, [], ◌∷◌, ◌++◌,
  arith, ◌==◌, eq_iff, if◌then◌else◌, find, any, update_where, select, count_where, Bool-cases, inl,
  inr,
}

module _ {ℓ} {A : Type ℓ} (key : A → String) where
  -- The row of a key.
  abbrev pub row : String → List A → Option A
  row k rows = find (λ r. key r == k) rows

  -- PRIMARY KEY: no two rows have one key.
  abbrev pub IsKeyed : List A → Type ℓ
  IsKeyed [] = Unit
  IsKeyed (r ∷ rows) = (row (key r) rows ≡ none) × IsKeyed rows

  pub row-key : (k : String) (rows : List A) {r : A} → row k rows ≡ some r → key r ≡ k
  row-key k [] h = absurd (cc)
  row-key k (x ∷ rows) {r} h = ground (arith, eq_iff (key x) k, row-key k rows {r = r})

  pub row-append_self :
      (rows : List A) (r : A) (k : String)
      → row (key r) rows ≡ none
      → row k (rows ++ r ∷ []) ≡ (if key r == k then some r else row k rows)
  row-append_self [] r k h = ground arith
  row-append_self (x ∷ rows) r k h =
      ground (
        arith,
        row-append_self rows r k,
        eq_iff (key x) k,
        eq_iff (key r) k,
        eq_iff (key x) (key r),
      )

  pub any-row :
      (k : String) (rows : List A) → any (λ r. key r == k) rows ≡ false → row k rows ≡ none
  any-row k [] h = refl
  any-row k (x ∷ rows) h = ground (arith, any-row k rows)

  pub IsKeyed-append_lem :
      (rows : List A) (r : A) → row (key r) rows ≡ none → IsKeyed rows → IsKeyed (rows ++ r ∷ [])
  IsKeyed-append_lem [] r h d = (refl, tt)
  IsKeyed-append_lem (x ∷ rows) r h d =
      let e = row-append_self rows r (key x) in
      (
        ground (arith, e, eq_iff (key x) (key r), eq_iff (key r) (key x)),
        IsKeyed-append_lem rows r (ground arith) d.1,
      )

module _ {ℓ} {A : Type ℓ} (key : A → String) (p : A → Bool) (f : A → A) where
  abbrev hits : String → A → Bool
  hits k r = key r == k && p r

  -- What `UPDATE ... SET f WHERE key = k AND p` makes of the row that has the key.
  abbrev pub changed : Option A → Option A
  changed none = none
  changed (some r) = some (if p r then f r else r)

  -- The number of rows that it affects.
  abbrev pub affected : Option A → ℕ
  affected none = 0
  affected (some r) = if p r then 1 else 0

  pub count-row :
      (k : String) (rows : List A)
      → IsKeyed key rows
      → count_where (λ r. key r == k && p r) rows ≡ affected (row key k rows)
  count-row k [] d = refl
  count-row k (x ∷ rows) d = elim (Bool-cases (key x == k)) [
    | inl e ↦
        (let h : row key k rows ≡ none =
            subst (λ j. row key j rows ≡ none) ((eq_iff (key x) k).0 e) d.0 in
          ground (arith, count-row k rows d.1, e, h))
    | inr e ↦ ground (arith, count-row k rows d.1, e)
  ]

  module _ (same : (r : A) → key (f r) ≡ key r) where
    pub row-update :
        (k j : String) (rows : List A)
        → IsKeyed key rows
        → row key j (update_where (λ r. key r == k && p r) f rows)
          ≡ (if k == j then changed (row key j rows) else row key j rows)
    row-update k j [] d = ground arith
    row-update k j (x ∷ rows) d =
        ground
          (arith, same x, row-update k j rows d.1, eq_iff (key x) k, eq_iff (key x) j, eq_iff k j)

    row-none-update :
        (q : A → Bool) (k : String) (rows : List A)
        → row key k rows ≡ none
        → row key k (update_where q f rows) ≡ none
    row-none-update q k [] h = refl
    row-none-update q k (x ∷ rows) h = ground (arith, same x, row-none-update q k rows)

    pub IsKeyed-update :
        (q : A → Bool) (rows : List A) → IsKeyed key rows → IsKeyed key (update_where q f rows)
    IsKeyed-update q [] d = tt
    IsKeyed-update q (x ∷ rows) d =
        let same_key : key (if q x then f x else x) ≡ key x = ground (arith, same x) in
        (rw same_key (row-none-update q (key x) rows d.0), IsKeyed-update q rows d.1)

    pub row-update_where :
        (k : String) (rows : List A) → row key k (update_where p f rows) ≡ changed (row key k rows)
    row-update_where k [] = refl
    row-update_where k (x ∷ rows) = ground (arith, same x, row-update_where k rows)

module _ {ℓ} {A : Type ℓ} (key : A → String) (q : A → Bool) where
  -- Whether there is a row of the key that passes.
  abbrev pub passes : Option A → Bool
  passes none = false
  passes (some r) = q r

  pub any-select :
      (k : String) (rows : List A)
      → IsKeyed key rows
      → any (λ r. key r == k) (select q rows) ≡ passes (row key k rows)
  any-select k [] d = refl
  any-select k (x ∷ rows) d = elim (Bool-cases (key x == k)) [
    | inl e ↦
        (let h : row key k rows ≡ none =
            subst (λ j. row key j rows ≡ none) ((eq_iff (key x) k).0 e) d.0 in
          ground (arith, any-select k rows d.1, e, h))
    | inr e ↦ ground (arith, any-select k rows d.1, e)
  ]

  row_of_mem :
      (rows : List A) (r : A) → IsKeyed key rows → Memᴰ r rows → row key (key r) rows ≡ some r
  row_of_mem [] r d m = elim m [ ]
  row_of_mem (x ∷ rows) r d (Memᴰ.head e) = ground (arith, eq_iff (key x) (key r))
  row_of_mem (x ∷ rows) r d (Memᴰ.tail m) = elim (Bool-cases (key x == key r)) [
    | inl e ↦ absurd (cc (row_of_mem rows r d.1 m, d.0, (eq_iff (key x) (key r)).0 e))
    | inr e ↦ rw e (row_of_mem rows r d.1 m)
  ]

  mem_of_select : (rows : List A) (r : A) → Memᴰ r (select q rows) → Memᴰ r rows × (q r ≡ true)
  mem_of_select [] r m = elim m [ ]
  mem_of_select (x ∷ rows) r m = elim (Bool-cases (q x)) [
    | inl e ↦ kept e (mem_of_select rows r) (rw e at m)
    | inr e ↦ (let (i, t) = mem_of_select rows r (rw e at m) in (Memᴰ.tail i, t))
  ]
    where
      kept :
          q x ≡ true
          → (Memᴰ r (select q rows) → Memᴰ r rows × (q r ≡ true))
          → Memᴰ r (x ∷ select q rows)
          → Memᴰ r (x ∷ rows) × (q r ≡ true)
      kept e ih (Memᴰ.head p) = (Memᴰ.head p, rw p e)
      kept e ih (Memᴰ.tail t) = let (i, u) = ih t in (Memᴰ.tail i, u)

  -- A row that a query returns is the row of its key.
  pub row_of_selected :
      (rows : List A) (r : A)
      → IsKeyed key rows
      → Memᴰ r (select q rows)
      → (row key (key r) rows ≡ some r) × (q r ≡ true)
  row_of_selected rows r d m = let (i, t) = mem_of_select rows r m in (row_of_mem rows r d i, t)
