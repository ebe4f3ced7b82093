-- ===== src/Tests/Connect.antt =====
-- Connecting, on a concrete input.
use go_sliding_window.Base.{◌≡◌, ◌≢◌, ◌⊎◌, refl, none, some, List, [], ◌∷◌}
use go_sliding_window.Base.Int.{ℤ, pos}
use go_sliding_window.Packet.{Duration}
use go_sliding_window.Session.Connect.{
  Connector, Attempt, taken, answered, no_answer, connect_if_needed,
}
use go_sliding_window.Session.Connected.{WasAnswered, connect_if_needed-Connected}

abbrev unconnected : Connector
unconnected = record { connect_timeout = pos 0; connect_attempts = pos 0; remote_sess_nonce = "" }

abbrev connected : Connector
connected = record {
  connect_timeout = pos 60_000_000_000;
  connect_attempts = pos 5;
  remote_sess_nonce = "n";
}

-- The first SYN is lost, the second is not answered in time, the third is.
abbrev third_time : Duration → ℤ → List Attempt
third_time timeout attempts =
    record { offer = taken; answer = answered "lost" none }
    ∷ record { offer = taken; answer = no_answer }
    ∷ record { offer = taken; answer = answered "n" none }
    ∷ []

connect_if_needed-Connected_example :
    ((connected.remote_sess_nonce ≡ unconnected.remote_sess_nonce)
        × (unconnected.remote_sess_nonce ≢ "")
      ⊎ WasAnswered (pos 1) 0 (third_time (pos 60_000_000_000) (pos 5)) "n" none)
    × ((connected.remote_sess_nonce ≡ "")
        ⊎ (connect_if_needed connected (pos 0) third_time ≡ some (connected, none)))
unfolding connect_if_needed
connect_if_needed-Connected_example =
    connect_if_needed-Connected unconnected connected (pos 1) (pos 0) third_time third_time refl
