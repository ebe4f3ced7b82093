-- ===== src/Session.antt =====
-- swp.go: what a session does between the application and its sender and receiver: its settings, how
-- a `Write` is cut into packets, and the files sent over it.
pub mod Write
pub mod Files
pub mod Connect
pub mod Connected
use go_sliding_window.Base.{
  ℕ, zero, suc, ◌+◌, ◌-◌, ◌*◌, ◌/◌, min, Bool, true, false, Option, none, some, List, [], ◌∷◌,
  String, length, take, drop, ltb, ◌==◌, not, bytes_eq, if◌then◌else◌,
}
use go_sliding_window.Base.Int.{ℤ, pos, negsuc, ltb_ℤ, eq_ℤ, mul_64}
use go_sliding_window.Tcp.{event_data}
use go_sliding_window.Flow.{Flow}
use go_sliding_window.Packet.{Packet, Duration, Time, zero_packet}
use go_sliding_window.Externals.{Externals}
use go_sliding_window.Sender.{SenderState, new_sender_state, initial_flow}
use go_sliding_window.Recv.{RecvState, SndLink, new_recv_state}

pub record SessionConfig : Type 0 where
  pub local_inbox : String
  pub dest_inbox : String
  pub window_msg_count : ℤ
  pub window_byte_sz : ℤ
  pub timeout : Duration
  pub keep_alive_interval : Duration
  pub num_failed_keep_alives_before_closing : ℤ

abbrev pub or_default : ℤ → ℤ → ℤ
or_default n d = if eq_ℤ n (pos 0) then d else n

abbrev pub settled : SessionConfig → SessionConfig
settled cfg = record cfg {
  window_byte_sz =
      if ltb_ℤ cfg.window_byte_sz cfg.window_msg_count
      then mul_64 (mul_64 cfg.window_msg_count (pos 10)) (pos 1024)
      else cfg.window_byte_sz;
  num_failed_keep_alives_before_closing =
      or_default cfg.num_failed_keep_alives_before_closing (pos 50);
  keep_alive_interval = or_default cfg.keep_alive_interval (pos 500_000_000);
}

-- The settings that `NewSession` works with; `none` is its error.
unfoldable pub settle : SessionConfig → Option SessionConfig
settle cfg = if ltb_ℤ cfg.window_msg_count (pos 1) then none else some (settled cfg)

abbrev pub count_of : ℤ → ℕ
count_of (pos n) = n
count_of (negsuc n) = 0

abbrev pub new_link : SndLink
new_link = record {
  flow_ct = initial_flow;
  send_ack = [];
  got_pack = [];
  recv_last_frame_client_consumed = pos 0;
}

module _ (x : Externals) where
  pub record Session : Type 0 where
    pub cfg : SessionConfig
    pub sender : SenderState x
    pub recver : RecvState
    pub local_sess_nonce : String

  -- `NewSession` and `NewSWP`; the nonce is the random one, and `now` the reading of the clock.
  unfoldable pub new_session : SessionConfig → String → Time → Option Session
  unfolding settle
  new_session cfg0 nonce now = elim (settle cfg0) [
    | none ↦ none
    | some cfg ↦ some (record {
      cfg = cfg;
      sender =
          new_sender_state x (count_of cfg.window_msg_count) cfg.timeout cfg.local_inbox
            cfg.dest_inbox cfg.keep_alive_interval cfg.num_failed_keep_alives_before_closing nonce
            now;
      recver =
          new_recv_state (count_of cfg.window_msg_count) cfg.window_byte_sz cfg.local_inbox
            cfg.dest_inbox nonce new_link;
      local_sess_nonce = nonce;
    })
  ]

unfoldable pub int64_min : ℤ → ℤ → ℤ
int64_min a b = if ltb_ℤ a b then a else b

-- `sz` of `Write`: at most 512 KB.
unfoldable pub piece_size : ℤ → ℤ
unfolding int64_min
piece_size window_byte_sz =
    let sz = int64_min window_byte_sz (pos 524288) in if ltb_ℤ sz (pos 0) then pos 524288 else sz

-- `npack`. Neither this nor the products below can wrap for a slice that fits in memory.
unfoldable pub piece_count : ℕ → ℕ → ℕ
piece_count len sz = let n = len / sz in if ltb 0 (len - n * sz) then suc n else n

-- One packet of a `Write`. `ack` stands for the `CliAcked` that the write waits on, `account` for
-- its `ByteAccount`.
unfoldable pub piece : String → String → List ℕ → ℕ → ℕ → Bool → ℕ → ℕ → Packet
piece inbox dest payload sz i last ack account = record zero_packet {
  from = inbox;
  dest = dest;
  payload = take (min (suc i * sz) (length payload) - i * sz) (drop (i * sz) payload);
  accounting = some account;
  tcp_event = event_data;
  cli_acked = if last then some ack else none;
}

-- The loop over the pieces, `left` of them from number `i`.
unfoldable pub pieces : ℕ → String → String → List ℕ → ℕ → ℕ → ℕ → ℕ → List Packet
pieces zero inbox dest payload sz i ack account = []
pieces (suc left) inbox dest payload sz i ack account =
    piece inbox dest payload sz i (left == 0) ack account
    ∷ pieces left inbox dest payload sz (suc i) ack account

-- The packets that `Write` pushes, once connected. `none` is the panic of a division by zero.
unfoldable pub write_packets : String → String → ℤ → List ℕ → ℕ → ℕ → Option (List Packet)
unfolding piece_size
write_packets inbox dest window_byte_sz payload ack account =
    if length payload == 0 then some [] else elim (piece_size window_byte_sz) [
      | pos zero ↦ none
      | pos (suc sz) ↦
          some (
            pieces (piece_count (length payload) (suc sz)) inbox dest payload (suc sz) 0 ack
              account)
      | negsuc n ↦ none
    ]

-- `BigFile`, and the two functions that send and receive one. `encode` and `decode` are those of
-- github.com/tinylib/msgp and the code that it generates; `decode` gives the file that it has filled
-- in and says whether it failed.
pub record BigFile : Type 0 where
  pub filepath : String
  pub size_in_bytes : ℤ
  pub blake2b_of : List ℕ
  pub send_time : Time
  pub content : List ℕ

pub data FileError : Type 0 where
  wrong_size no_checksum wrong_checksum decoding : FileError

unfoldable pub recv_file :
    (List ℕ → List ℕ) → (List ℕ → BigFile × Bool) → List ℕ → BigFile × Option FileError
recv_file blake2b decode bytes =
    let (bf, ok) = decode bytes in
    (
      bf,
      if not (eq_ℤ bf.size_in_bytes (pos (length bf.content)))
          then some wrong_size
          else (if length bf.blake2b_of == 0
              then some no_checksum
              else (if not (bytes_eq bf.blake2b_of (blake2b bf.content))
                  then some wrong_checksum
                  else (if ok then none else some decoding))),
    )

unfoldable pub send_file :
    (List ℕ → List ℕ) → (BigFile → List ℕ) → String → List ℕ → Time → BigFile × List ℕ
send_file blake2b encode path writeme tm =
    let bf : BigFile = record {
      filepath = path;
      size_in_bytes = pos (length writeme);
      blake2b_of = blake2b writeme;
      send_time = tm;
      content = writeme;
    } in
    (bf, encode bf)
