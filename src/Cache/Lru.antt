-- ===== src/Cache/Lru.antt =====
-- What cache/src/local.rs relies on of `LruCache` in the lru crate, keyed by byte strings.
use orbitive.Prelude.{
  ℕ, ◌≡◌, Bool, false, ◌&&◌, ◌||◌, List, [], ◌∷◌, Option, none, some, bytes_eq, if◌then◌else◌,
}

abbrev pub any_entry {ℓ} : {A : Type ℓ} → (A → Bool) → List A → Bool
any_entry q [] = false
any_entry q (x ∷ xs) = q x || any_entry q xs

abbrev pub holds {ℓ} : {A : Type ℓ} → (A → Bool) → Option A → Bool
holds q none = false
holds q (some a) = q a

-- `peek` sees an entry without using it. `get` uses it, `put` and `push` write it, and where there is
-- no room `push` hands out the entry it has dropped. `iter` lists the entries.
pub record LruCache (V : Type 0) : Type 1 where
  pub Cache : Type 0
  pub new : ℕ → Cache
  pub peek : Cache → List ℕ → Option V
  pub get : Cache → List ℕ → Option V × Cache
  pub put : Cache → List ℕ → V → Cache
  pub push : Cache → List ℕ → V → Option (List ℕ × V) × Cache
  pub pop : Cache → List ℕ → Cache
  pub clear : Cache → Cache
  pub iter : Cache → List (List ℕ × V)

-- Its documented behaviour.
pub record IsLru {V : Type 0} (L : LruCache V) : Type 0 where
  pub peek-new : (capacity : ℕ) (j : List ℕ) → L.peek (L.new capacity) j ≡ none
  pub get-value : (c : L.Cache) (k : List ℕ) → (L.get c k).0 ≡ L.peek c k
  pub peek-get : (c : L.Cache) (k j : List ℕ) → L.peek (L.get c k).1 j ≡ L.peek c j
  pub peek-put :
      (c : L.Cache) (k j : List ℕ) (v old : V)
      → L.peek c k ≡ some old
      → L.peek (L.put c k v) j ≡ (if bytes_eq k j then some v else L.peek c j)
  pub peek-push : (c : L.Cache) (k : List ℕ) (v : V) → L.peek (L.push c k v).1 k ≡ some v
  pub peek-push_other :
      (c : L.Cache) (k j : List ℕ) (v : V)
      → bytes_eq k j ≡ false
      → holds (λ dropped. bytes_eq dropped.0 j) (L.push c k v).0 ≡ false
      → L.peek (L.push c k v).1 j ≡ L.peek c j
  pub push-dropped :
      (c : L.Cache) (k j : List ℕ) (v w : V) → (L.push c k v).0 ≡ some (j, w) → L.peek c j ≡ some w
  pub peek-pop :
      (c : L.Cache) (k j : List ℕ)
      → L.peek (L.pop c k) j ≡ (if bytes_eq k j then none else L.peek c j)
  pub peek-clear : (c : L.Cache) (j : List ℕ) → L.peek (L.clear c) j ≡ none
  pub iter-entries :
      (c : L.Cache) (j : List ℕ) (q : V → Bool)
      → any_entry (λ e. bytes_eq e.0 j && q e.1) (L.iter c) ≡ holds q (L.peek c j)
