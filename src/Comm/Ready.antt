-- ===== src/Comm/Ready.antt =====
-- src/serial_comm_manager.c: between two calls of `get_block` the link is ready for the next frame.
use smartphone_robot_firmwar.Base.{
  ℕ, zero, suc, ◌+◌, List, [], ◌∷◌, Option, none, some, Bool, true, false, if◌then◌else◌, u8, u16,
  ◌≡◌, refl,
}
use smartphone_robot_firmwar.Board.{
  Hardware, World, Outcome, ok, assert_failed, M, pure, ◌>>=◌, ◌>>◌, rp2040_log,
}
use smartphone_robot_firmwar.Board.Sdk.{Event}
use smartphone_robot_firmwar.Board.Bus.{after}
use smartphone_robot_firmwar.Board.Keeps.{Post, Keeps, keeps, Keeps-pure}
use smartphone_robot_firmwar.Comm.State.{CommState}
use smartphone_robot_firmwar.Comm.Frames.{HadFuel, read_packet-enough}
use smartphone_robot_firmwar.Comm.{
  zero_incoming, Ending, complete, timed_out, out_of_fuel, is_marker, update, start_marker,
  get_char, put_bytes, put_outgoing, reset_packet_and_send_nack, store_byte, read_packet,
  finish_packet, get_block,
}

-- No frame has begun: both indices are -1, and the packet's type and its two data bytes are 0.
abbrev pub IsReady : CommState → Type 0
IsReady c =
    (c.start_idx ≡ 0xff)
    × ((c.end_idx ≡ 0xff) × ((c.incoming.packet_type ≡ 0) × (c.incoming.payload ≡ 0 ∷ 0 ∷ [])))

abbrev Ready : World → Type 0
Ready w = IsReady w.comm

-- What holds where a run returns. It may also stop at an assertion of a bus.
unfoldable pub Returned : {A : Type 0} → (A → World → Type 0) → Outcome A → Type 0
Returned Q (ok a w) = Q a w
Returned Q (assert_failed w) = Unit {0}

record Reaches {A : Type 0} (Q : A → World → Type 0) (m : M A) : Type 0 where
  pub at : (w : World) → Returned Q (m w)

abbrev AnyReady : {A : Type 0} → A → World → Type 0
AnyReady a w = Ready w

-- Whatever runs first.
bind-Returned :
    {A B : Type 0} (Q : B → World → Type 0) (o : Outcome A) (f : A → M B)
    → ((a : A) → Reaches Q (f a))
    → Returned Q (elim o as (λ k. Outcome B) [ ok a w ↦ f a w | assert_failed w ↦ assert_failed w ])
unfolding Returned
bind-Returned Q (ok a w) f h = (h a).at w
bind-Returned Q (assert_failed w) f h = tt

Reaches->>= :
    {A B : Type 0} (Q : B → World → Type 0) (m : M A) (f : A → M B)
    → ((a : A) → Reaches Q (f a))
    → Reaches Q (m >>= f)
Reaches->>= Q m f h = record { at = λ w. bind-Returned Q (m w) f h }

Reaches->> :
    {B : Type 0} (Q : B → World → Type 0) (m : M (Unit {0})) (k : M B)
    → Reaches Q k
    → Reaches Q (m >> k)
Reaches->> Q m k h = Reaches->>= Q m (λ _. k) (λ _. h)

Reaches-if :
    {A : Type 0} (Q : A → World → Type 0) (b : Bool) (m n : M A)
    → Reaches Q m
    → Reaches Q n
    → Reaches Q (if b then m else n)
Reaches-if Q true m n hm hn = hm
Reaches-if Q false m n hm hn = hn

put-Keeps : (bs : List ℕ) → Keeps Ready (put_bytes bs)
unfolding put_bytes
put-Keeps [] = Keeps-pure Ready tt
put-Keeps (b ∷ bs) = keeps (λ w h. (put-Keeps bs).at _ h)

-- What keeps the link ready, and a value that comes with it.
then-Returned :
    {B : Type 0} (Q : B → World → Type 0) (o : Outcome (Unit {0})) (b : B)
    → Post Ready o
    → ((w : World) → Ready w → Q b w)
    → Returned Q
        (elim o as (λ k. Outcome B) [ ok u w ↦ ok b w | assert_failed w ↦ assert_failed w ])
unfolding Returned
then-Returned Q (ok u w) b h k = k w h
then-Returned Q (assert_failed w) b h k = tt

Post-Returned : (o : Outcome (Unit {0})) → Post Ready o → Returned AnyReady o
unfolding Returned
Post-Returned (ok u w) h = h
Post-Returned (assert_failed w) h = tt

reset-Post : (w : World) → Post Ready (reset_packet_and_send_nack w)
unfolding reset_packet_and_send_nack put_outgoing
reset-Post w = (put-Keeps _).at _ (refl, (refl, (refl, refl)))

reset-Reaches : Reaches AnyReady reset_packet_and_send_nack
reset-Reaches = record { at = λ w. Post-Returned (reset_packet_and_send_nack w) (reset-Post w) }

-- The loop that reads a frame has reset the link where it has timed out.
unfoldable ResetIfLate : Ending → World → Type 0
ResetIfLate timed_out w = Ready w
ResetIfLate complete w = Unit {0}
ResetIfLate out_of_fuel w = Unit {0}

late-Reaches : Reaches ResetIfLate (reset_packet_and_send_nack >> pure timed_out)
unfolding ResetIfLate
late-Reaches = record {
  at = λ w.
      then-Returned ResetIfLate (reset_packet_and_send_nack w) timed_out (reset-Post w) (λ w h. h);
}

module _ (hw : Hardware) where
  answered-Reaches :
      (buffer_index : ℕ) (rest : M Ending) (o : Option ℕ)
      → Reaches ResetIfLate rest
      → Reaches ResetIfLate (elim o as (λ _. M Ending) [
        | none ↦
            rp2040_log hw "Timeout while reading packet. Resetting state.\n" []
            >> (reset_packet_and_send_nack >> pure timed_out)
        | some c ↦ store_byte hw buffer_index c >> rest
      ])
  answered-Reaches buffer_index rest none h = Reaches->> ResetIfLate _ _ late-Reaches
  answered-Reaches buffer_index rest (some c) h =
      Reaches->> ResetIfLate (store_byte hw buffer_index c) rest h

  read-Reaches :
      (fuel i buffer_index : ℕ) → Reaches ResetIfLate (read_packet hw fuel i buffer_index)
  unfolding read_packet ResetIfLate Returned
  read-Reaches zero i buffer_index = record { at = λ w. tt }
  read-Reaches (suc fuel) i buffer_index =
      Reaches-if ResetIfLate _ _ (pure complete)
        (Reaches->>= ResetIfLate (get_char hw) _ (λ o.
          answered-Reaches buffer_index _ o
            (read-Reaches fuel (u8 (i + 1)) (u16 (buffer_index + 1)))))
        (record { at = λ w. tt })

  cleared-Reaches :
      Reaches AnyReady
        (update (λ c. record c { start_idx = 0xff; end_idx = 0xff; incoming = zero_incoming }))
  unfolding Returned
  cleared-Reaches = record { at = λ w. (refl, (refl, (refl, refl))) }

  finish-Reaches : Reaches AnyReady (finish_packet hw)
  unfolding finish_packet
  finish-Reaches =
      search (Reaches->>=, Reaches->>, Reaches-if, cleared-Reaches, reset-Reaches) depth 12

  -- What follows the loop, which has not run out of fuel.
  ended-Returned :
      (o : Outcome Ending)
      → HadFuel o
      → Returned ResetIfLate o
      → Returned AnyReady (elim o as (λ k. Outcome (Unit {0})) [
        | ok e w ↦
            (elim e as (λ _. M (Unit {0})) [
              | complete ↦ finish_packet hw
              | timed_out ↦ pure tt
              | out_of_fuel ↦ pure tt
            ])
              w
        | assert_failed w ↦ assert_failed w
      ])
  unfolding Returned ResetIfLate
  ended-Returned (ok complete w) f h = finish-Reaches.at w
  ended-Returned (ok timed_out w) f h = h
  ended-Returned (ok out_of_fuel w) f h = elim f [ ]
  ended-Returned (assert_failed w) f h = tt

  if-Returned :
      (b : Bool) (m n : M (Unit {0})) (w : World)
      → Returned AnyReady (m w)
      → Returned AnyReady (n w)
      → Returned AnyReady ((if b then m else n) w)
  if-Returned true m n w hm hn = hm
  if-Returned false m n w hm hn = hn

  -- A frame, after its start marker.
  abbrev frame : M (Unit {0})
  frame =
      update (λ c. record c { start_idx = 0 })
      >> (read_packet hw 4 0 0 >>= (λ ending. elim ending as (λ _. M (Unit {0})) [
        | complete ↦ finish_packet hw
        | timed_out ↦ pure tt
        | out_of_fuel ↦ pure tt
      ]))

  frame-Returned : (w : World) → Returned AnyReady (frame w)
  frame-Returned w =
      let w1 = record w { comm = record (w.comm) { start_idx = 0 } } in
      ended-Returned (read_packet hw 4 0 0 w1) (read_packet-enough hw 0 w1).0
        ((read-Reaches 4 0 0).at w1)

  block-Returned : (w : World) → Ready w → Returned AnyReady (get_block hw w)
  unfolding get_block Returned
  block-Returned w h =
      let w1 = after w (Event.getchar_timeout_us 100) in
      if-Returned (is_marker start_marker (hw.char_in w1.trace)) frame (pure tt) w1
        (frame-Returned w1) h

-- The main loop's calls of `get_block`.
unfoldable pub get_blocks : Hardware → ℕ → M (Unit {0})
get_blocks hw zero = pure tt
get_blocks hw (suc n) = do get_block hw; get_blocks hw n

next-Returned :
    (o : Outcome (Unit {0})) (k : M (Unit {0}))
    → Returned AnyReady o
    → ((w : World) → Ready w → Returned AnyReady (k w))
    → Returned AnyReady
        (elim o as (λ k. Outcome (Unit {0})) [ ok u w ↦ k w | assert_failed w ↦ assert_failed w ])
unfolding Returned
next-Returned (ok u w) k h hk = hk w h
next-Returned (assert_failed w) k h hk = tt

-- From a link on which no frame has begun, any number of calls of `get_block` leaves such a link where it
-- returns, whatever the phone sends and whatever the devices answer: after a frame that was handled, a
-- frame that broke off, one without its end marker and a byte that starts none, both indices are -1 and
-- the packet is cleared. A run that does not return has stopped at an assertion.
pub get_blocks-IsReady :
    (hw : Hardware) (n : ℕ) (w : World)
    → IsReady w.comm
    → Returned (λ u w'. IsReady w'.comm) (get_blocks hw n w)
unfolding get_blocks Returned
get_blocks-IsReady hw zero w h = h
get_blocks-IsReady hw (suc n) w h =
    next-Returned (get_block hw w) (get_blocks hw n) (block-Returned hw w h)
      (get_blocks-IsReady hw n)
