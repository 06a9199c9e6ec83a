-- ===== src/Dht/Client/Ids.antt =====
-- The transaction ids that `get_transaction_id` hands out.
use hyperswarm.Base.{ℕ, zero, suc, ◌+◌, ◌%◌, ◌^◌, ◌<◌, ◌≡◌, refl, ◌↔◌, List, arith}
use hyperswarm.Net.{World, Outcome, done}
use hyperswarm.Dht.Compact.{to_be_bytes}
use hyperswarm.Dht.Client.{DhtError, DhtClient, advance, transaction_id, get_transaction_id}

module _ {E : Type 0} where
  -- The world after `k` calls.
  pub draw : ℕ → World E DhtClient → World E DhtClient
  draw zero w = w
  draw (suc k) w = draw k (get_transaction_id w).1

  -- The outcome of the call after `k` others.
  pub drawn : ℕ → World E DhtClient → Outcome (DhtError E) (List ℕ)
  drawn k w = (get_transaction_id (draw k w)).0

  draw-counter :
      (k : ℕ) (w : World E DhtClient)
      → w.self.next_transaction_id < 2 ^ 16
      → (draw k w).self.next_transaction_id ≡ (w.self.next_transaction_id + k) % 2 ^ 16
  unfolding draw get_transaction_id advance
  draw-counter zero w h = omega arith
  draw-counter (suc k) w h =
      omega (arith, draw-counter k (record w { self = advance w.self }) (omega arith))

  drawn-bytes :
      (k : ℕ) (w : World E DhtClient)
      → drawn k w ≡ done (to_be_bytes (draw k w).self.next_transaction_id)
  unfolding drawn get_transaction_id transaction_id
  drawn-bytes k w = refl

to_be_bytes-injective : (a b : ℕ) → to_be_bytes a ≡ to_be_bytes b → a ≡ b
to_be_bytes-injective a b e = ground arith

done-injective :
    {E : Type 0} (xs ys : List ℕ)
    → ◌≡◌ {A = Outcome (DhtError E) (List ℕ)} (done xs) (done ys)
    → xs ≡ ys
done-injective xs ys e = cc

module _ {E : Type 0} (i j : ℕ) (w : World E DhtClient) where
  -- From a counter that is a 16-bit word, two calls give the same id exactly when the numbers of
  -- the calls before them agree modulo 2 ^ 16: an id is not given out again for 65,536 calls.
  pub drawn-eq_iff :
      w.self.next_transaction_id < 2 ^ 16 → (drawn i w ≡ drawn j w) ↔ (i % 2 ^ 16 ≡ j % 2 ^ 16)
  drawn-eq_iff h =
      let ci = draw-counter i w h in
      let cj = draw-counter j w h in
      let at_i = drawn-bytes i w in
      let at_j = drawn-bytes j w in
      (
        λ e.
            let same =
              to_be_bytes-injective _ _ (done-injective {E = E} _ _ (rw (at_i, at_j) at e)) in
            omega arith,
        λ e.
            let same : (draw i w).self.next_transaction_id ≡ (draw j w).self.next_transaction_id =
              omega arith in
            rw (at_i, at_j, same),
      )
