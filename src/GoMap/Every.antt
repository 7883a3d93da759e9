-- ===== src/GoMap/Every.antt =====
-- A predicate that holds of all entries of a list holds of all entries of its groups.
use walkai_nos.Base.{Bool, List, [], ◌∷◌, ◌++◌, Comparable, All, All-append, arith}
use walkai_nos.GoMap.{GoMap, get?, put}
use walkai_nos.GoMap.Groups.{filter, list_at, group_into, group_by}

pub All-filter {ℓ κ} :
    {A : Type ℓ} (P : A → Type κ) (keep : A → Bool) (l : List A) → All P l → All P (filter keep l)
unfolding filter
All-filter P keep [] h = tt
All-filter P keep (x ∷ rest) h = ground (arith, h.0, All-filter P keep rest h.1)

module _ {ℓ κ ι} {K : Type ℓ} {A : Type κ} ⦃e : Comparable K⦄ (P : A → Type ι) where
  -- A predicate of all entries of a list holds of all entries of its groups.
  pub list_at-Every : (k : K) (m : GoMap K (List A)) → All (λ e. All P e.1) m → All P (list_at k m)
  unfolding list_at get?
  list_at-Every k [] h = tt
  list_at-Every k ((j, l) ∷ m) h = ground (arith, h.0, list_at-Every k m h.1)

  pub put-Every :
      (k : K) (l : List A) (m : GoMap K (List A))
      → All P l
      → All (λ e. All P e.1) m
      → All (λ e. All P e.1) (put k l m)
  unfolding put
  put-Every k l [] hl h = (hl, tt)
  put-Every k l ((j, x) ∷ m) hl h = ground (arith, hl, h.0, h.1, put-Every k l m hl h.1)

  group_into-Every :
      (key : A → K) (l : List A) (m : GoMap K (List A))
      → All P l
      → All (λ e. All P e.1) m
      → All (λ e. All P e.1) (group_into key m l)
  unfolding group_into
  group_into-Every key [] m hl h = h
  group_into-Every key (r ∷ rest) m hl h =
      group_into-Every key rest (put (key r) (list_at (key r) m ++ r ∷ []) m) hl.1 (
        put-Every (key r) (list_at (key r) m ++ r ∷ []) m
          (All-append P (list_at (key r) m) (r ∷ []) (list_at-Every (key r) m h) (hl.0, tt)) h)

  pub group_by-Every : (key : A → K) (l : List A) → All P l → All (λ e. All P e.1) (group_by key l)
  unfolding group_by
  group_by-Every key l h = group_into-Every key l [] h tt
