-- ===== src/Dht/Deaf.antt =====
-- A client to which nothing comes that it can read.
pub mod Queries
pub mod Topics
pub mod Isolated
use hyperswarm.Base.{
  ℕ, ◌≡◌, refl, ap, sym, ◌∙◌, ◌+◌, ◌≢◌, Bool, true, false, if◌then◌else◌, Option, none, some, List,
  [], ◌∷◌, ◌++◌, take, arith,
}
use hyperswarm.Net.{
  World, M, Outcome, done, fail, elapsed, pending, panicked, Event, datagram, recv_error, Result,
  ok, err, continue, convert, reflect, close, timeout,
}
use hyperswarm.Net.Drains.{Drains}
use hyperswarm.Protocol.{KrpcMessage, Bencode}
use hyperswarm.Dht.Table.{RoutingTable}
use hyperswarm.Dht.Client.{DhtClient, max_krpc_message_size}

module _ {E : Type 0} (codec : Bencode) where
  -- No datagram of the inbox can be read as a message.
  abbrev pub AllUnread : List (ℕ × Event E) → Type 0
  AllUnread [] = Unit
  AllUnread ((time, datagram from bytes) ∷ rest) =
      ((msg : KrpcMessage) → codec.from_bytes (take max_krpc_message_size bytes) ≢ ok msg)
      × AllUnread rest
  AllUnread ((time, recv_error e) ∷ rest) = AllUnread rest

  AllUnread-suffix : (taken rest : List (ℕ × Event E)) → AllUnread (taken ++ rest) → AllUnread rest
  AllUnread-suffix [] rest h = h
  AllUnread-suffix ((time, datagram from bytes) ∷ taken) rest h = AllUnread-suffix taken rest h.1
  AllUnread-suffix ((time, recv_error e) ∷ taken) rest h = AllUnread-suffix taken rest h

  -- So it is, and the client has that table.
  pub record Deaf (table : RoutingTable) (w : World E DhtClient) : Type 0 where
    pub unread : AllUnread w.inbox
    pub same : w.self.routing_table ≡ table

  -- The limit has no part in that.
  unlimited :
      (table : RoutingTable) (limit : Option ℕ) (v : World E DhtClient)
      → Deaf table v
      → Deaf table (record v { limit = limit })
  unlimited table limit v h = record { unread = h.unread; same = h.same }

module _ {Err X : Type 0} where
  abbrev pub NotDone : Outcome Err X → Type 0
  NotDone (done x) = ⊥
  NotDone _ = Unit

module _ {E Err X : Type 0} (codec : Bencode) (table : RoutingTable) where
  -- A run that leaves the client deaf.
  pub record StaysDeaf (r : Outcome Err X × World E DhtClient) : Type 0 where
    pub deaf : Deaf codec table r.1

  pub of_Drains-StaysDeaf :
      (w : World E DhtClient) (r : Outcome Err X × World E DhtClient)
      → Drains w r
      → Deaf codec table w
      → StaysDeaf r
  of_Drains-StaysDeaf w r d h = record {
    deaf = record {
      unread = AllUnread-suffix codec d.taken r.1.inbox (rw d.inbox at h.unread);
      same = ap (λ (c : DhtClient). c.routing_table) d.self ∙ h.same;
    };
  }

module _ {E Err X Y : Type 0} (codec : Bencode) (table : RoutingTable) where
  pub continue-StaysDeaf :
      (r : Outcome Err X × World E DhtClient) (f : X → M E DhtClient Err Y)
      → StaysDeaf codec table r
      → ((x : X) (v : World E DhtClient) → Deaf codec table v → StaysDeaf codec table (f x v))
      → StaysDeaf codec table (continue r f)
  continue-StaysDeaf (done x, v) f h k = k x v h.deaf
  continue-StaysDeaf (fail e, v) f h k = record { deaf = h.deaf }
  continue-StaysDeaf (elapsed, v) f h k = record { deaf = h.deaf }
  continue-StaysDeaf (pending, v) f h k = record { deaf = h.deaf }
  continue-StaysDeaf (panicked, v) f h k = record { deaf = h.deaf }

  pub convert-StaysDeaf :
      (r : Outcome Err X × World E DhtClient) (f : Err → Y)
      → StaysDeaf codec table r
      → StaysDeaf codec table (convert f r)
  convert-StaysDeaf (done x, v) f h = record { deaf = h.deaf }
  convert-StaysDeaf (fail e, v) f h = record { deaf = h.deaf }
  convert-StaysDeaf (elapsed, v) f h = record { deaf = h.deaf }
  convert-StaysDeaf (pending, v) f h = record { deaf = h.deaf }
  convert-StaysDeaf (panicked, v) f h = record { deaf = h.deaf }

  pub reflect-StaysDeaf :
      (r : Outcome Err X × World E DhtClient)
      → StaysDeaf codec table r
      → StaysDeaf {Err = Y} codec table (reflect r)
  reflect-StaysDeaf (done x, v) h = record { deaf = h.deaf }
  reflect-StaysDeaf (fail e, v) h = record { deaf = h.deaf }
  reflect-StaysDeaf (elapsed, v) h = record { deaf = h.deaf }
  reflect-StaysDeaf (pending, v) h = record { deaf = h.deaf }
  reflect-StaysDeaf (panicked, v) h = record { deaf = h.deaf }

  close-StaysDeaf :
      (outer : Option ℕ) (deadline : ℕ) (r : Outcome Err X × World E DhtClient)
      → StaysDeaf codec table r
      → StaysDeaf {Err = Y} codec table (close outer deadline r)
  close-StaysDeaf outer deadline (done x, v) h = record {
    deaf = unlimited codec table outer v h.deaf;
  }
  close-StaysDeaf outer deadline (fail e, v) h = record {
    deaf = unlimited codec table outer v h.deaf;
  }
  close-StaysDeaf outer deadline (elapsed, v) h = record {
    deaf = unlimited codec table outer v h.deaf;
  }
  close-StaysDeaf outer deadline (pending, v) h = record {
    deaf = unlimited codec table outer v h.deaf;
  }
  close-StaysDeaf outer deadline (panicked, v) h = record {
    deaf = unlimited codec table outer v h.deaf;
  }

  pub timeout-StaysDeaf :
      (k : ℕ) (m : M E DhtClient Err X)
      → ((v : World E DhtClient) → Deaf codec table v → StaysDeaf codec table (m v))
      → (w : World E DhtClient) → Deaf codec table w
      → StaysDeaf {Err = Y} codec table (timeout k m w)
  unfolding timeout
  timeout-StaysDeaf k m h w d =
      close-StaysDeaf w.limit (w.now + k) _ (h _ (unlimited codec table _ w d))

module _ {E Err X : Type 0} (codec : Bencode) (table : RoutingTable) where
  pub if-StaysDeaf :
      (b : Bool) (m n : M E DhtClient Err X) (w : World E DhtClient)
      → StaysDeaf codec table (m w)
      → StaysDeaf codec table (n w)
      → StaysDeaf codec table ((if b then m else n) w)
  if-StaysDeaf true m n w h k = h
  if-StaysDeaf false m n w h k = k

module _ {E Err X Y : Type 0} where
  -- What comes after a run that is never done is not run.
  pub continue-never :
      (r : Outcome Err X × World E DhtClient) (f : X → M E DhtClient Err Y)
      → NotDone r.0
      → NotDone (continue r f).0 × ((continue r f).1 ≡ r.1)
  continue-never (done x, v) f h = absurd h
  continue-never (fail e, v) f h = (tt, refl)
  continue-never (elapsed, v) f h = (tt, refl)
  continue-never (pending, v) f h = (tt, refl)
  continue-never (panicked, v) f h = (tt, refl)

  pub continue-NotDone :
      (r : Outcome Err X × World E DhtClient) (f : X → M E DhtClient Err Y)
      → ((x : X) (v : World E DhtClient) → r ≡ (done x, v) → NotDone (f x v).0)
      → NotDone (continue r f).0
  continue-NotDone (done x, v) f k = k x v refl
  continue-NotDone (fail e, v) f k = tt
  continue-NotDone (elapsed, v) f k = tt
  continue-NotDone (pending, v) f k = tt
  continue-NotDone (panicked, v) f k = tt
