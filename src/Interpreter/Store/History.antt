-- ===== src/Interpreter/Store/History.antt =====
-- What a stream's memory holds after any sequence of values, and what a lookup returns.
use rtlola.Common.{
  ℕ, zero, suc, ◌^◌, ◌<◌, if◌then◌else◌, Bool, Option, none, List, [], ◌∷◌, length, get_elem?, take,
  ok, ◌≡◌, refl, ap, arith, take_all, drop_last-take, length-take, get_elem?-take,
  get_elem?-ge_length, ltb, inl, inr, Bool-cases, ◌∙◌, sym, panic,
}
use rtlola.Common.Int.{pos, neg}
use rtlola.Ir.{MemorizationBound, bounded, unbounded}
use rtlola.Interpreter.Store.{InstanceStore, new, get_value, push_value, evict}

module _ {V : Type 0} where
  -- All the values that were ever pushed, newest first, and the store after them.
  abbrev pub pushes : InstanceStore V → List V → InstanceStore V
  pushes store [] = store
  pushes store (v ∷ vs) = push_value (pushes store vs) v

  -- How many of the newest values a store remembers. (A bound of 0 never evicts.)
  abbrev pub kept : MemorizationBound → List V → List V
  kept unbounded history = history
  kept (bounded zero) history = history
  kept (bounded (suc limit)) history = take (suc limit) history

  evict-kept :
      (bound : MemorizationBound) (v : V) (history : List V)
      → v ∷ evict bound (kept bound history) ≡ kept bound (v ∷ history)
  unfolding evict
  evict-kept unbounded v history = refl
  evict-kept (bounded zero) v [] = refl
  evict-kept (bounded zero) v (x ∷ xs) = ground arith
  evict-kept (bounded (suc limit)) v history = elim (Bool-cases (ltb limit (length history))) [
    | inl full ↦ ground (arith, length-take (suc limit) history, drop_last-take limit history)
    | inr room ↦ ground (arith, take_all (suc limit) history, take_all limit history)
  ]

  bound-pushes :
      (bound : MemorizationBound) (history : List V) → (pushes (new bound) history).bound ≡ bound
  unfolding push_value new
  bound-pushes bound [] = refl
  bound-pushes bound (v ∷ history) = bound-pushes bound history

  kept-nil : (bound : MemorizationBound) → kept bound [] ≡ []
  kept-nil unbounded = refl
  kept-nil (bounded zero) = refl
  kept-nil (bounded (suc limit)) = refl

  -- Newest first, a store holds the last values pushed, as many as its bound allows; a bound of 0 drops
  -- none, as in the code, and the program pushes to no such store.
  pub buffer-pushes :
      (bound : MemorizationBound) (history : List V)
      → (pushes (new bound) history).buffer ≡ kept bound history
  unfolding push_value new
  buffer-pushes bound [] = sym (kept-nil bound)
  buffer-pushes bound (v ∷ history) =
      rw (bound-pushes bound history, buffer-pushes bound history) (evict-kept bound v history)

  -- What a stream with this history shows `k` values back.
  abbrev pub remembered : MemorizationBound → List V → ℕ → Option V
  remembered unbounded history k = get_elem? history k
  remembered (bounded zero) history k = get_elem? history k
  remembered (bounded (suc limit)) history k =
      if ltb k (suc limit) then get_elem? history k else none

  get_elem?-kept :
      (bound : MemorizationBound) (history : List V) (k : ℕ)
      → get_elem? (kept bound history) k ≡ remembered bound history k
  get_elem?-kept unbounded history k = refl
  get_elem?-kept (bounded zero) history k = refl
  get_elem?-kept (bounded (suc limit)) history k = ground (
    arith,
    get_elem?-take (suc limit) k history,
    get_elem?-ge_length (take (suc limit) history) k,
    length-take (suc limit) history,
  )

  get_value-buffer :
      (debug : Bool) (store : InstanceStore V) (k : ℕ)
      → k < 2 ^ 15
      → get_value debug store (neg (pos k)) ≡ ok (get_elem? store.buffer k)
  unfolding get_value
  get_value-buffer debug store zero h = refl
  get_value-buffer debug store (suc k) h = ground arith

  -- Looking up the offset -k, for k below 2^15, never panics and shows the value pushed k values
  -- before the newest, if the bound of the store reaches that far back, and nothing otherwise; a bound
  -- of 0 reaches back to all values, as in the code.
  pub get_value-pushes :
      (debug : Bool) (bound : MemorizationBound) (history : List V) (k : ℕ)
      → k < 2 ^ 15
      → get_value debug (pushes (new bound) history) (neg (pos k)) ≡ ok (remembered bound history k)
  get_value-pushes debug bound history k h =
      get_value-buffer debug (pushes (new bound) history) k h
      ∙ ap (λ buffer. ok (get_elem? buffer k)) (buffer-pushes bound history)
      ∙ ap ok (get_elem?-kept bound history k)

  -- A lookup at a positive offset panics.
  pub get_value_future :
      (debug : Bool) (store : InstanceStore V) (k : ℕ) → get_value debug store (pos (suc k)) ≡ panic
  unfolding get_value
  get_value_future debug store k = ground arith
