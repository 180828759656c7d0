-- ===== src/Dict.antt =====
-- Python's `dict` with text keys, as an association list in insertion order. The list is private:
-- the other modules have the laws. The repositories of backend/app/trading/repository.py are such
-- dicts.
use veles_moex.Common.{
  String, ◌≡◌, refl, ◌∙◌, sym, subst, true, false, Bool, Option, none, some, List, [], ◌∷◌, arith,
  str_eq, eq_refl, eq_iff, if◌then◌else◌, is_some, Bool-cases, inl, inr,
}

pub record Dict {ℓ} (V : Type ℓ) : Type ℓ where
  entries : List (String × V)

module _ {ℓ} {V : Type ℓ} where
  lookup : String → List (String × V) → Option V
  lookup k [] = none
  lookup k ((j, v) ∷ l) = if str_eq j k then some v else lookup k l

  -- An existing key keeps its place, a new one goes to the end.
  store : String → V → List (String × V) → List (String × V)
  store k v [] = (k, v) ∷ []
  store k v ((j, w) ∷ l) = if str_eq j k then (j, v) ∷ l else (j, w) ∷ store k v l

  discard : String → List (String × V) → List (String × V)
  discard k [] = []
  discard k ((j, w) ∷ l) = let rest = discard k l in if str_eq j k then rest else (j, w) ∷ rest

  lookup-store :
      (k j : String) (v : V) (l : List (String × V))
      → lookup j (store k v l) ≡ (if str_eq k j then some v else lookup j l)
  unfolding lookup store
  lookup-store k j v [] = refl
  lookup-store k j v ((i, w) ∷ l) =
      ground (arith, eq_iff k j, eq_iff i k, eq_iff i j, lookup-store k j v l)

  lookup-discard :
      (k j : String) (l : List (String × V))
      → lookup j (discard k l) ≡ (if str_eq k j then none else lookup j l)
  unfolding lookup discard
  lookup-discard k j [] = ground arith
  lookup-discard k j ((i, w) ∷ l) =
      ground (arith, eq_iff k j, eq_iff i k, eq_iff i j, lookup-discard k j l)

  abbrev pub AllOf : (V → Type 0) → List V → Type 0
  AllOf P [] = Unit
  AllOf P (v ∷ vs) = P v × AllOf P vs

  values_of : List (String × V) → List V
  values_of [] = []
  values_of ((_, v) ∷ l) = v ∷ values_of l

  lookup_all :
      (P : V → Type 0) (k : String) (v : V) (l : List (String × V))
      → AllOf P (values_of l)
      → lookup k l ≡ some v
      → P v
  unfolding lookup values_of
  lookup_all P k v [] h e = absurd (none_ne_some e)
    where
      none_ne_some : none ≡ some v → ⊥
      none_ne_some q = cc
  lookup_all P k v ((j, w) ∷ l) h e = elim (Bool-cases (str_eq j k)) [
    | inl same ↦ subst P (unsome (sym (first same) ∙ e)) h.0
    | inr other ↦ lookup_all P k v l h.1 (sym (further other) ∙ e)
  ]
    where
      unsome : some w ≡ some v → w ≡ v
      unsome q = cc

      first : str_eq j k ≡ true → lookup k ((j, w) ∷ l) ≡ some w
      first q = rw q

      further : str_eq j k ≡ false → lookup k ((j, w) ∷ l) ≡ lookup k l
      further q = rw q

  store_all : (V → String) → List V → List (String × V) → List (String × V)
  unfolding store
  store_all key [] l = l
  store_all key (v ∷ vs) l = store_all key vs (store (key v) v l)

  abbrev or_else : Option V → Option V → Option V
  or_else none o = o
  or_else (some v) o = some v

-- Each value stands under its own key, and each key stands once.
abbrev Keyed : {V : Type 0} → (V → String) → List (String × V) → Type 0
Keyed key [] = Unit
Keyed key ((k, v) ∷ l) = (key v ≡ k) × (lookup k l ≡ none) × Keyed key l

module _ {V : Type 0} (key : V → String) where
  Keyed-store : (v : V) (l : List (String × V)) → Keyed key l → Keyed key (store (key v) v l)
  unfolding lookup store
  Keyed-store v [] h = (refl, refl, tt)
  Keyed-store v ((j, w) ∷ l) h =
      ground
        (arith, Keyed-store v l h.2, lookup-store (key v) j v l, eq_iff j (key v), eq_iff (key v) j)

  Keyed-discard : (k : String) (l : List (String × V)) → Keyed key l → Keyed key (discard k l)
  unfolding lookup discard
  Keyed-discard k [] h = tt
  Keyed-discard k ((j, w) ∷ l) h =
      ground (arith, Keyed-discard k l h.2, lookup-discard k j l, eq_iff j k, eq_iff k j)

  Keyed-store_all :
      (vs : List V) (l : List (String × V)) → Keyed key l → Keyed key (store_all key vs l)
  unfolding store_all
  Keyed-store_all [] l h = h
  Keyed-store_all (v ∷ vs) l h = Keyed-store_all vs (store (key v) v l) (Keyed-store v l h)

  lookup_key :
      (k : String) (v : V) (l : List (String × V)) → Keyed key l → lookup k l ≡ some v → key v ≡ k
  unfolding lookup
  lookup_key k v [] h e = cc
  lookup_key k v ((j, w) ∷ l) h e = ground (arith, lookup_key k v l h.2, eq_iff j k)

  lookup-store_all :
      (k : String) (l acc : List (String × V))
      → Keyed key l
      → lookup k (store_all key (values_of l) acc) ≡ or_else (lookup k l) (lookup k acc)
  unfolding lookup values_of store_all
  lookup-store_all k [] acc h = refl
  lookup-store_all k ((j, v) ∷ l) acc h = ground (
    arith,
    lookup-store_all k l (store (key v) v acc) h.2,
    lookup-store (key v) k v acc,
    eq_iff j k,
    eq_iff (key v) k,
  )

module _ {ℓ} {V : Type ℓ} where
  unfoldable pub empty : Dict V
  empty = record { entries = [] }

  -- `d.get(k)`
  unfoldable pub get : Dict V → String → Option V
  unfolding lookup
  get d k = lookup k d.entries

  -- `k in d`
  abbrev pub has : Dict V → String → Bool
  has d k = is_some (get d k)

  -- `d[k] = v`
  unfoldable pub put : Dict V → String → V → Dict V
  unfolding store
  put d k v = record { entries = store k v d.entries }

  -- `d.pop(k, None)`
  unfoldable pub remove : Dict V → String → Dict V
  unfolding discard
  remove d k = record { entries = discard k d.entries }

  -- `list(d.values())`
  pub values : Dict V → List V
  unfolding values_of
  values d = values_of d.entries

  -- What holds of every value holds of one that is found.
  pub get_all :
      (P : V → Type 0) (d : Dict V) (k : String) (v : V)
      → AllOf P (values d)
      → get d k ≡ some v
      → P v
  unfolding get values
  get_all P d k v h e = lookup_all P k v d.entries h e

  pub get-put :
      (d : Dict V) (k j : String) (v : V)
      → get (put d k v) j ≡ (if str_eq k j then some v else get d j)
  unfolding get put
  get-put d k j v = lookup-store k j v d.entries

  pub get-remove :
      (d : Dict V) (k j : String) → get (remove d k) j ≡ (if str_eq k j then none else get d j)
  unfolding get remove
  get-remove d k j = lookup-discard k j d.entries

pub get-empty {ℓ} : {V : Type ℓ} (k : String) → get (empty {V = V}) k ≡ none
unfolding get empty
get-empty k = refl

-- `for v in vs: d[key(v)] = v`
unfoldable pub put_all {ℓ} : {V : Type ℓ} → (V → String) → List V → Dict V → Dict V
unfolding store_all
put_all key vs d = record { entries = store_all key vs d.entries }

module _ {V : Type 0} (key : V → String) where
  pub put_all-nil : (d : Dict V) → put_all key [] d ≡ d
  unfolding put_all
  put_all-nil d = refl

  pub put_all-cons :
      (v : V) (vs : List V) (d : Dict V) → put_all key (v ∷ vs) d ≡ put_all key vs (put d (key v) v)
  unfolding put_all put
  put_all-cons v vs d = refl

  -- What holds of every value that is stored, and of every old one, holds of one that is found.
  pub put_all_all :
      (P : V → Type 0) (vs : List V) (d : Dict V)
      → AllOf P vs
      → ((k : String) (v : V) → get d k ≡ some v → P v)
      → (k : String) (v : V) → get (put_all key vs d) k ≡ some v
      → P v
  put_all_all P [] d h old k v e = old k v (rw put_all-nil at e)
  put_all_all P (w ∷ ws) d h old k v e =
      put_all_all P ws (put d (key w) w) h.1 newer k v (rw put_all-cons at e)
    where
      newer : (k : String) (v : V) → get (put d (key w) w) k ≡ some v → P v
      newer k v e = elim (Bool-cases (str_eq (key w) k)) [
        | inl same ↦ subst P (unsome (rw (get-put, same) at e)) h.0
        | inr other ↦ old k v (rw (get-put, other) at e)
      ]
        where
          unsome : some w ≡ some v → w ≡ v
          unsome q = cc

-- Each value stands under its own key.
pub record IsKeyed {V : Type 0} (key : V → String) (d : Dict V) : Type 0 where
  keyed : Keyed key d.entries

module _ {V : Type 0} (key : V → String) where
  pub IsKeyed-empty : IsKeyed key empty
  unfolding empty
  IsKeyed-empty = record { keyed = tt }

  pub IsKeyed-put : (d : Dict V) (v : V) → IsKeyed key d → IsKeyed key (put d (key v) v)
  unfolding put
  IsKeyed-put d v h = record { keyed = Keyed-store key v d.entries h.keyed }

  pub IsKeyed-remove : (d : Dict V) (k : String) → IsKeyed key d → IsKeyed key (remove d k)
  unfolding remove
  IsKeyed-remove d k h = record { keyed = Keyed-discard key k d.entries h.keyed }

  pub IsKeyed-put_all : (vs : List V) (d : Dict V) → IsKeyed key d → IsKeyed key (put_all key vs d)
  unfolding put_all
  IsKeyed-put_all vs d h = record { keyed = Keyed-store_all key vs d.entries h.keyed }

  pub get_key : (d : Dict V) (k : String) (v : V) → IsKeyed key d → get d k ≡ some v → key v ≡ k
  unfolding get
  get_key d k v h e = lookup_key key k v d.entries h.keyed e

  pub IsKeyed-put_at :
      (d : Dict V) (k : String) (v : V) → key v ≡ k → IsKeyed key d → IsKeyed key (put d k v)
  IsKeyed-put_at d k v e h = subst (λ j. IsKeyed key (put d j v)) e (IsKeyed-put d v h)

  -- Storing the values of a dict into an empty one gives each key its value back.
  pub get-put_all-values :
      (d : Dict V) (k : String) → IsKeyed key d → get (put_all key (values d) empty) k ≡ get d k
  unfolding get put_all values empty
  get-put_all-values d k h =
      lookup-store_all key k d.entries [] h.keyed ∙ or_else-none (lookup k d.entries)
    where
      or_else-none : (o : Option V) → or_else o (lookup k []) ≡ o
      or_else-none none = refl
      or_else-none (some v) = refl

  -- What holds of every value that is found holds of all of them.
  pub all_values :
      (P : V → Type 0) (d : Dict V)
      → IsKeyed key d
      → ((k : String) (v : V) → get d k ≡ some v → P v)
      → AllOf P (values d)
  unfolding get values lookup values_of
  all_values P d h f = go d.entries h.keyed f
    where
      go :
          (l : List (String × V))
          → Keyed key l
          → ((k : String) (v : V) → lookup k l ≡ some v → P v)
          → AllOf P (values_of l)
      go [] h f = tt
      go ((k, v) ∷ l) h f = (f k v (simp eq_refl), go l h.2 (λ j w e. f j w (further j w e)))
        where
          further : (j : String) (w : V) → lookup j l ≡ some w → lookup j ((k, v) ∷ l) ≡ some w
          further j w e = ground (arith, eq_iff k j, h.1, e)
