-- ===== src/Tests/SimNet.antt =====
-- The simulated network on concrete inputs.
use go_sliding_window.Base.{
  ℕ, ◌*◌, ◌≤◌, ◌-◌, ◌≡◌, ◌↔◌, ◌⊎◌, refl, true, [], ◌∷◌, All, ltb, leb, arith,
}
use go_sliding_window.Base.Int.{pos, negsuc, ◌≤ℤ◌, two_63}
use go_sliding_window.Packet.{Packet}
use go_sliding_window.SimNet.{
  FloatOrder, SimNet, Delivery, new_sim_net, listen_on, lookup, sim_send, handed_over,
  history_equal, crypto_numerator, resolution,
}
use go_sliding_window.SimNet.Genuine.{Run, started, sent, handed, run-IsGenuine, IsOneOf}
use go_sliding_window.SimNet.Reorder.{
  IsPlain, Overtakes, sim_send-Overtakes, history_equal_iff, numbers,
}
use go_sliding_window.SimNet.Chance.{crypto_numerator-cases}
use go_sliding_window.Tests.Data.{frame}

-- Numbers as percentages.
abbrev percent : FloatOrder
percent = record { Float = ℕ; float_zero = 0; lt_float = ltb; le_float = leb }

abbrev two_inboxes : SimNet percent
unfolding new_sim_net listen_on
two_inboxes = listen_on percent "A" 1 (listen_on percent "B" 2 (new_sim_net percent 0 (pos 10)))

abbrev to_b : Packet
to_b = frame 0 (1 ∷ [])

abbrev to_a : Packet
to_a = record (frame 1 (2 ∷ [])) { from = "B"; dest = "A" }

abbrev first_delivery : Delivery
first_delivery = record { ch = 2; pack = to_b; lat = pos 10 }

-- One packet is sent and handed over.
one_packet :
    Run percent two_inboxes
      (to_b ∷ [])
      (first_delivery ∷ [])
      (handed_over percent [] first_delivery [] (sim_send percent 50 to_b two_inboxes).0)
unfolding sim_send two_inboxes
one_packet = handed [] [] first_delivery (sent 50 to_b started) refl

run-IsGenuine_example :
    All (λ (d : Delivery). IsOneOf percent (to_b ∷ []) d.pack) (first_delivery ∷ []) × (1 ≤ 2 * 1)
unfolding two_inboxes
run-IsGenuine_example = run-IsGenuine percent refl one_packet

abbrev reordering : SimNet percent
unfolding two_inboxes
reordering = record two_inboxes { simulate_reorder_next = pos 1 }

reordering-IsPlain : IsPlain percent reordering
unfolding reordering
reordering-IsPlain = record {
  no_loss = refl;
  no_filter = refl;
  no_discard = refl;
  no_duplicate = refl;
}

-- The packet for B arrives at A.
sim_send-Overtakes_example :
    Overtakes percent
      (record reordering { simulate_reorder_next = pos 0 })
      1
      to_b
      to_a
      (sim_send percent 50 to_a (sim_send percent 50 to_b reordering).0).0
unfolding reordering lookup
sim_send-Overtakes_example =
    sim_send-Overtakes percent 50 50 2 1 to_b to_a reordering reordering-IsPlain refl refl refl

history_equal_iff_example :
    (history_equal (to_b ∷ to_a ∷ []) (to_b ∷ to_a ∷ []) ≡ true)
    ↔ (numbers (to_b ∷ to_a ∷ []) ≡ numbers (to_b ∷ to_a ∷ []))
history_equal_iff_example = history_equal_iff (to_b ∷ to_a ∷ []) (to_b ∷ to_a ∷ [])

crypto_numerator-cases_example :
    ((pos 0 ≤ℤ crypto_numerator (negsuc 1048577))
      × (crypto_numerator (negsuc 1048577) ≤ℤ resolution))
    ⊎ ((negsuc 1048577 ≡ negsuc (two_63 - 1))
        × (crypto_numerator (negsuc 1048577) ≡ negsuc 1048568))
crypto_numerator-cases_example = crypto_numerator-cases (negsuc 1048577) (omega arith)
