-- ===== src/Net/Zoom.antt =====
-- An async function of a part of an object, run on the whole.
use hyperswarm.Base.{ℕ, Option, none, some}
use hyperswarm.Net.{Outcome, World, M}
use hyperswarm.Net.Calm.{Calm, Swift, InTime}

-- The same world, with another object.
abbrev pub with_self : {E S T : Type 0} → T → World E S → World E T
with_self s w = record {
  now = w.now;
  limit = w.limit;
  inbox = w.inbox;
  sends = w.sends;
  sent = w.sent;
  dns = w.dns;
  ties = w.ties;
  self = s;
}

-- `whole.part.m()`, where `get` and `put` read and write the part.
abbrev pub zoom : {E S T Err X : Type 0} → (T → S) → (S → T → T) → M E S Err X → M E T Err X
zoom get put m w =
    let r = m (with_self (get w.self) w) in (r.0, with_self (put r.1.self w.self) r.1)

InTime-with_self :
    {E S T Err X : Type 0} (limit : Option ℕ) (now : ℕ) (r : Outcome Err X × World E S) (s : T)
    → InTime limit now r
    → InTime limit now (r.0, with_self s r.1)
InTime-with_self none now r s h = h
InTime-with_self (some l) now r s h = h

module _ {E S T Err X : Type 0} (get : T → S) (put : S → T → T) (m : M E S Err X) where
  pub zoom-Calm :
      (w : World E T)
      → Calm (with_self (get w.self) w) (m (with_self (get w.self) w))
      → Calm w (zoom get put m w)
  zoom-Calm w c = record {
    kept = c.kept;
    later = c.later;
    fewer = c.fewer;
    unharmed = c.unharmed;
    in_time = InTime-with_self w.limit w.now _ _ c.in_time;
  }

  pub zoom-Swift :
      (k : ℕ) (w : World E T)
      → Swift k (with_self (get w.self) w) (m (with_self (get w.self) w))
      → Swift k w (zoom get put m w)
  zoom-Swift k w s = record { ended = s.ended; soon = s.soon }
