-- ===== src/Mouse/Packets.antt =====
-- The packets that `KiHandlePS2Mouse` of ntoskrnl/drv/mouse.c gathers.
use open_lib.Common.{
  ℕ, ◌≡◌, refl, ap, ◌∙◌, arith, Bool, true, false, not, ◌&&◌, List, [], ◌∷◌, ◌++◌, update,
}
use open_lib.Mouse.{Mouse, flag, process_mouse, store, handle_ps2_mouse}

-- Three bytes of a packet, the first with its bit 3 set.
pub record Packet : Type 0 where
  pub first : ℕ
  pub second : ℕ
  pub third : ℕ
  pub synced : flag first 3 ≡ true

-- Past the first byte and between two packets.
pub record IsBetween (s : Mouse) : Type 0 where
  pub at_start : s.cycle ≡ 0
  pub started : s.skip ≡ false

abbrev pub stream : List Packet → List ℕ
stream [] = []
stream (p ∷ ps) = p.first ∷ p.second ∷ p.third ∷ stream ps

module _ (width height stray : ℕ) where
  abbrev pub handle_all : List ℕ → Mouse → Mouse
  handle_all [] s = s
  handle_all (b ∷ bs) s = handle_all bs (handle_ps2_mouse width height stray b s)

  -- A packet arrives whole: the packet before it is acted on, and it waits for the next byte.
  abbrev pub receive : Packet → Mouse → Mouse
  receive p s =
      let s' = process_mouse width height stray s in
      record s' {
        packet = update (update (update s'.packet 0 p.first) 1 p.second) 2 p.third;
        packet_ready = true;
        cycle = 0;
      }

  abbrev pub receive_all : List Packet → Mouse → Mouse
  receive_all [] s = s
  receive_all (p ∷ ps) s = receive_all ps (receive p s)

  process_mouse-idle : (s : Mouse) → s.packet_ready ≡ false → process_mouse width height stray s ≡ s
  unfolding process_mouse
  process_mouse-idle s h = ground arith

  process_mouse-done : (s : Mouse) → (process_mouse width height stray s).packet_ready ≡ false
  unfolding process_mouse
  process_mouse-done s = ground arith

  process_mouse-cycle :
      (s : Mouse)
      → ((process_mouse width height stray s).cycle ≡ s.cycle)
        × ((process_mouse width height stray s).skip ≡ s.skip)
  unfolding process_mouse
  process_mouse-cycle s = (ground arith, ground arith)

  handle-idle :
      (byte : ℕ) (s : Mouse)
      → s.packet_ready ≡ false
      → s.skip ≡ false
      → handle_ps2_mouse width height stray byte s ≡ store width height stray byte s
  unfolding handle_ps2_mouse
  handle-idle byte s h k = ground (arith, process_mouse-idle s h)

  -- From an idle state the three bytes of a packet are stored in order.
  gather :
      (p : Packet) (t : Mouse)
      → t.cycle ≡ 0
      → t.skip ≡ false
      → t.packet_ready ≡ false
      → handle_all (p.second ∷ p.third ∷ []) (store width height stray p.first t) ≡ record t {
        packet = update (update (update t.packet 0 p.first) 1 p.second) 2 p.third;
        packet_ready = true;
        cycle = 0;
      }
  gather p t c k r =
      let one : Mouse = record t { packet = update t.packet 0 p.first; cycle = 1 } in
      let two : Mouse = record one { packet = update one.packet 1 p.second; cycle = 2 } in
      let e1 : store width height stray p.first t ≡ one = ground (arith, p.synced) in
      let e2 : handle_ps2_mouse width height stray p.second one ≡ two =
        ground (arith, handle-idle p.second one r k) in
      rw (e1, e2, handle-idle p.third two r k) (ground arith)

  receive_lem :
      (p : Packet) (s : Mouse)
      → IsBetween s
      → handle_all (p.first ∷ p.second ∷ p.third ∷ []) s ≡ receive p s
  receive_lem p s b =
      let t = process_mouse width height stray s in
      let kept = process_mouse-cycle s in
      let first : handle_ps2_mouse width height stray p.first s
          ≡ store width height stray p.first t =
        unfold handle_ps2_mouse in ground (arith, kept.1, b.started) in
      rw first (gather p t (kept.0 ∙ b.at_start) (kept.1 ∙ b.started) (process_mouse-done s))

  -- The driver never loses the place: a row of packets is received packet by packet, each of them
  -- acted on when the next one begins.
  pub handle_all-stream :
      (ps : List Packet) (s : Mouse) → IsBetween s → handle_all (stream ps) s ≡ receive_all ps s
  handle_all-stream [] s b = refl
  handle_all-stream (p ∷ ps) s b =
      let kept = process_mouse-cycle s in
      ap (handle_all (stream ps)) (receive_lem p s b)
      ∙ handle_all-stream ps (receive p s)
          (record { at_start = refl; started = kept.1 ∙ b.started })

  abbrev pub no_sync : List ℕ → Bool
  no_sync [] = true
  no_sync (b ∷ bs) = not (flag b 3) && no_sync bs

  handle-no_sync :
      (byte : ℕ) (s : Mouse)
      → IsBetween s
      → flag byte 3 ≡ false
      → handle_ps2_mouse width height stray byte s ≡ process_mouse width height stray s
  unfolding handle_ps2_mouse
  handle-no_sync byte s b h =
      let kept = process_mouse-cycle s in
      let done = process_mouse-done s in ground (arith, kept.0, kept.1, b.at_start, b.started)

  -- Between packets, bytes that cannot begin one are dropped, after the waiting packet was acted
  -- on; the packets behind them are received as if the bytes were not there.
  pub handle_all-no_sync :
      (junk : List ℕ) (ps : List Packet) (s : Mouse)
      → IsBetween s
      → s.packet_ready ≡ false
      → no_sync junk ≡ true
      → handle_all (junk ++ stream ps) s ≡ receive_all ps s
  handle_all-no_sync [] ps s b r h = handle_all-stream ps s b
  handle_all-no_sync (x ∷ junk) ps s b r h =
      let same : handle_ps2_mouse width height stray x s ≡ s =
        handle-no_sync x s b (ground arith) ∙ process_mouse-idle s r in
      ap (handle_all (junk ++ stream ps)) same ∙ handle_all-no_sync junk ps s b r (ground arith)
