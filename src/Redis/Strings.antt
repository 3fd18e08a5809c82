-- ===== src/Redis/Strings.antt =====
-- src/redis.c: redis_set, redis_get and redis_del over a store of strings.
use multi_client_chat_server.Prelude.{
  ℕ, suc, ◌≡◌, refl, ap, pos, none, some, [], ◌∷◌, Option, Text, codes, text_eq, take,
  if◌then◌else◌,
}
use multi_client_chat_server.Redis.{
  string, other, Hiredis, on, ask, redis_set, redis_get, redis_del,
}

-- What SET, GET and DEL do, by Redis's documentation: GET answers the value of a key as a string and changes
-- nothing, SET answers OK and DEL a number.
pub record StringStore (h : Hiredis) : Type 0 where
  pub value : h.Context → Text → Option Text
  pub get :
      (c : h.Context) (k v : Text)
      → value c k ≡ some v
      → h.command (codes "GET" ∷ k ∷ []) c ≡ (c, some (string v))
  pub get_nil :
      (c : h.Context) (k : Text)
      → value c k ≡ none
      → h.command (codes "GET" ∷ k ∷ []) c ≡ (c, some other)
  pub set_reply :
      (c : h.Context) (k v : Text) → (h.command (codes "SET" ∷ k ∷ v ∷ []) c).1 ≡ some other
  pub set_value :
      (c : h.Context) (k v j : Text)
      → value (h.command (codes "SET" ∷ k ∷ v ∷ []) c).0 j
        ≡ (if text_eq k j then some v else value c j)
  pub del_reply : (c : h.Context) (k : Text) → (h.command (codes "DEL" ∷ k ∷ []) c).1 ≡ some other
  pub del_value :
      (c : h.Context) (k j : Text)
      → value (h.command (codes "DEL" ∷ k ∷ []) c).0 j ≡ (if text_eq k j then none else value c j)

module _ (h : Hiredis) (store : StringStore h) where
  abbrev pub cut : ℕ → Option Text → Option Text
  cut n none = none
  cut n (some v) = some (take n v)

  redis_get_lem :
      (c : h.Context) (k : Text) (n : ℕ) (o : Option Text)
      → store.value c k ≡ o
      → redis_get h (on c) (some k) (suc n) ≡ (on c, cut n o)
  unfolding redis_get ask
  redis_get_lem c k n none e = rw (store.get_nil c k e, redis_get) refl
  redis_get_lem c k n (some v) e = rw (store.get c k v e, redis_get) refl

  -- By the laws of the store: redis_set without an expiry and redis_del answer 0, and redis_get then gives for
  -- the same key the value, cut to its buffer, and nothing, and for every other key what it gave before.
  pub redis_get-set :
      (c : h.Context) (k v j : Text) (n : ℕ)
      → ((redis_set h (on c) (some k) (some v) 0).1 ≡ pos 0)
        × ((redis_get h (redis_set h (on c) (some k) (some v) 0).0 (some j) (suc n)).1
            ≡ cut n (if text_eq k j then some v else store.value c j))
        × ((redis_del h (on c) (some k)).1 ≡ pos 0)
        × ((redis_get h (redis_del h (on c) (some k)).0 (some j) (suc n)).1
            ≡ cut n (if text_eq k j then none else store.value c j))
  unfolding redis_set redis_del ask
  redis_get-set c k v j n = (
    rw (store.set_reply c k v) refl,
    ap (λ p. p.1)
        (redis_get_lem (h.command (codes "SET" ∷ k ∷ v ∷ []) c).0 j n _ (store.set_value c k v j)),
    rw (store.del_reply c k) refl,
    ap (λ p. p.1)
        (redis_get_lem (h.command (codes "DEL" ∷ k ∷ []) c).0 j n _ (store.del_value c k j)),
  )
