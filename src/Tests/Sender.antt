-- ===== src/Tests/Sender.antt =====
-- The sender on concrete packets.
use go_sliding_window.Base.{◌≡◌, refl, true, Option, none, some, arith}
use go_sliding_window.Base.Int.{pos, add_64, mul_64, sub_64, wrap_64, ◌+ℤ◌, ◌-ℤ◌}
use go_sliding_window.Packet.{time_sub}
use go_sliding_window.Externals.Lists.{list_externals, list_laws, insert_cmp, erase_cmp}
use go_sliding_window.Retree.{
  delete_through_seq_num, delete_while, compare_seq_num, compare_retry_deadline, unix_nano,
}
use go_sliding_window.Rtt.{new_rtt}
use go_sliding_window.Flow.{update_flow}
use go_sliding_window.Sender.{SenderState, new_sender_state}
use go_sliding_window.Sender.Estimate.{get_deadline_dur}
use go_sliding_window.Sender.Send.{do_orig_data_send, regular_wakeup, is_dead, fill_slot, stamp}
use go_sliding_window.Sender.Receive.{
  got_pack, update_rtt, remove_acked, check_ack_window, hear, finish_ack,
}
use go_sliding_window.Sender.History.{IsNumbered, do_orig-IsNumbered}
use go_sliding_window.Sender.Loop.{
  SendEvent, interval_wakeup, send_step, Continues, send_step-Continues,
}
use go_sliding_window.Sender.KeptControl.{new_sender-IsNumbered}
use go_sliding_window.Tests.Data.{hello}
use go_sliding_window.Tests.Link.{world_0, world_1, sent}

fresh-IsNumbered : IsNumbered list_externals list_laws 0 world_0.sender
fresh-IsNumbered =
    new_sender-IsNumbered list_externals list_laws 2 (pos 100) "A" "B" (pos 500_000_000) (pos 50)
      "na" (pos 1000)

sent_one : IsNumbered list_externals list_laws 1 world_1.sender
sent_one =
    do_orig-IsNumbered list_externals list_laws 0 world_0.sender hello (pos 2000) true (omega arith)
      fresh-IsNumbered

abbrev or_sender :
    SenderState list_externals → Option (SenderState list_externals) → SenderState list_externals
or_sender s none = s
or_sender s (some t) = t

-- Much later the packet is sent again.
abbrev awake : SenderState list_externals
awake = or_sender world_1.sender (
    regular_wakeup list_externals world_1.sender (pos 2_000_000_000) (λ i. pos 2_000_000_000)
      (λ i. true))

abbrev late_wakeup : SendEvent
late_wakeup = interval_wakeup (pos 2_000_000_000) (λ i. pos 2_000_000_000) (λ i. true)

send_step-Continues_example : Continues list_externals list_laws 1 world_1.sender late_wakeup awake
unfolding send_step regular_wakeup is_dead mul_64 time_sub new_sender_state do_orig_data_send sub_64
    add_64 wrap_64 ◌+ℤ◌ ◌-ℤ◌
send_step-Continues_example =
    send_step-Continues list_externals list_laws 1 world_1.sender late_wakeup tt (omega arith)
      sent_one

-- A keep-alive that acknowledges it.
abbrev heard : SenderState list_externals
heard = or_sender world_1.sender (got_pack list_externals world_1.sender sent (pos 2_000_000_000))

is_heard : got_pack list_externals world_1.sender sent (pos 2_000_000_000) ≡ some heard
unfolding got_pack update_rtt remove_acked delete_through_seq_num delete_while check_ack_window hear
    finish_ack do_orig_data_send fill_slot stamp new_sender_state insert_cmp erase_cmp
    compare_seq_num compare_retry_deadline unix_nano add_64 sub_64 wrap_64 ◌+ℤ◌ ◌-ℤ◌
    get_deadline_dur new_rtt update_flow mul_64
is_heard = refl
