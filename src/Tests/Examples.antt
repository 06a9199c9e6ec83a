-- ===== src/Tests/Examples.antt =====
-- The connection example on a quiet network, on which the resolver answers.
use hyperswarm.Base.{true, ℕ, refl, none, some, [], ◌∷◌, arith}
use hyperswarm.Net.{World, datagram, answered, ok}
use hyperswarm.Examples.{Machine, localhost, p2p_connection}
use hyperswarm.Examples.Connect.{IsReady}
use hyperswarm.Examples.Connection.{HasReported, p2p_connection-HasReported}
use hyperswarm.Tests.Parties.{open_noise, key_of}
use hyperswarm.Tests.Lookup.{plain, zeros}

abbrev machine : Machine ℕ
machine = record {
  bind = λ _ _. ok tt;
  local_addr = ok (localhost 4000);
  random_id = zeros 20;
  keypair = ok (record { public = key_of 3; private = key_of 5 });
  blake2b512 = λ _. zeros 64;
}

machine-IsReady : IsReady open_noise machine
machine-IsReady = record {
  bound = λ _ _. refl;
  addr = localhost 4000;
  local = refl;
  digest = λ _. refl;
  keys = record { public = key_of 3; private = key_of 5 };
  generated = refl;
  long_public = omega arith;
  long_private = omega arith;
  accepted = λ key _. ((key, none), refl);
}

-- The first probe fails.
abbrev quiet : World ℕ (Unit {0})
quiet = record {
  now = 0;
  limit = none;
  inbox = (300, datagram (localhost 7) (1 ∷ [])) ∷ [];
  sends = some 4 ∷ none ∷ [];
  sent = [];
  dns = λ _ _. answered 20 (localhost 6881 ∷ []);
  ties = λ _. true;
  self = tt;
}

p2p_connection-HasReported_example :
    HasReported quiet (p2p_connection open_noise plain machine quiet)
p2p_connection-HasReported_example =
    p2p_connection-HasReported open_noise plain machine machine-IsReady quiet refl
