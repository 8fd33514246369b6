-- ===== src/Providers/Cache.antt =====
-- providers/base.py: the cache of one process, whose entries expire, and the views of a cache under a
-- prefix. Times are counted in ticks of the clock; `now` is what it says when the operation runs.
pub mod Laws
mod Tests
use py_bike_router.Base.{
  ℕ, ◌+◌, String, Option, none, some, List, [], ◌∷◌, ltb, lookup, insert, remove, if◌then◌else◌,
}
use py_bike_router.Base.Text.{concat}

-- Each key with the time when its entry expires, and the value.
abbrev pub Store {ℓ} : Type ℓ → Type ℓ
Store V = List (String × (ℕ × V))

-- NamespacedCache: the keys of one namespace.
abbrev pub prefixed : (namespace key : String) → String
prefixed namespace key = concat (concat namespace ":") key

module _ {ℓ} {V : Type ℓ} where
  -- InMemoryTTLCache.get: an expired entry is deleted.
  abbrev pub found : String → ℕ → Store V → Option (ℕ × V) → Store V × Option V
  found key now store none = (store, none)
  found key now store (some (expires_at, value)) =
      if ltb expires_at now then (remove key store, none) else (store, some value)

  unfoldable pub get : String → (now : ℕ) → Store V → Store V × Option V
  get key now store = found key now store (lookup key store)

  unfoldable pub set : String → V → (ttl now : ℕ) → Store V → Store V
  set key value ttl now store = insert key (now + ttl, value) store

  unfoldable pub get_in : (namespace : String) → String → (now : ℕ) → Store V → Store V × Option V
  unfolding get
  get_in namespace key now store = get (prefixed namespace key) now store

  unfoldable pub set_in : (namespace : String) → String → V → (ttl now : ℕ) → Store V → Store V
  unfolding set
  set_in namespace key value ttl now store = set (prefixed namespace key) value ttl now store
