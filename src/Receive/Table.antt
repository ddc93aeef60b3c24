-- ===== src/Receive/Table.antt =====
-- `libwebsock_frame_lookup_table` against the classes of first bytes in RFC 6455, section 5.2.
use libwebsock.Prelude.{
  ℕ, ◌/◌, ◌%◌, ◌<◌, ◌≡◌, refl, Bool, true, false, ◌&&◌, ◌||◌, not, Option, some, arith, leb, ◌==◌,
  if◌then◌else◌, bit_or, get_elem?, all_below, all_below_sound,
}
use libwebsock.Receive.{FrameFn, dispatch, control, continuation, fail, null, frame_lookup_table}

-- What a frame with a first byte of FIN, three reserved bits and an opcode calls for: reserved
-- bits are 0; a control frame is not fragmented and is a close, a ping or a pong; a data frame
-- begins a message outside a fragmented one and continues it inside; FIN ends the message.
abbrev pub frame_class : Bool → ℕ → FrameFn
frame_class inside b =
    let fin = leb 128 b in
    let reserved = b / 16 % 8 in
    let opcode = b % 16 in
    if not (reserved == 0)
    then fail
    else if leb 8 opcode
    then (if fin && leb opcode 10 then control else fail)
    else if (if inside then opcode == 0 else opcode == 1 || opcode == 2)
    then (if fin then dispatch else continuation)
    else fail

-- What the table has for a first byte: the frame's class, but for the entries it leaves null.
abbrev pub table_class : Bool → ℕ → FrameFn
table_class inside b = if inside && leb 240 b then null else frame_class inside b

same : Option FrameFn → FrameFn → Bool
same (some dispatch) dispatch = true
same (some control) control = true
same (some continuation) continuation = true
same (some fail) fail = true
same (some null) null = true
same _ _ = false

same→eq : (o : Option FrameFn) (f : FrameFn) → same o f ≡ true → o ≡ some f
unfolding same
same→eq o f h = ground arith

abbrev entry : Bool → ℕ → Option FrameFn
entry inside b = get_elem? frame_lookup_table (bit_or (if inside then 256 else 0) b)

outside_row : all_below 256 (λ b. same (entry false b) (table_class false b)) ≡ true
unfolding all_below same frame_lookup_table
outside_row = refl

inside_row : all_below 256 (λ b. same (entry true b) (table_class true b)) ≡ true
unfolding all_below same frame_lookup_table
inside_row = refl

-- For every first byte, outside and inside a fragmented message, the lookup table has an entry: it
-- is the function for the frame's class in RFC 6455, except that inside a fragmented message the
-- first bytes from 240 on have a null pointer.
pub lookup-class :
    (inside : Bool) (b : ℕ)
    → b < 256
    → get_elem? frame_lookup_table (bit_or (if inside then 256 else 0) b)
      ≡ some (table_class inside b)
lookup-class true b h =
    same→eq _ _ (all_below_sound 256 (λ b. same (entry true b) (table_class true b)) b inside_row h)
lookup-class false b h =
    same→eq _ _
      (all_below_sound 256 (λ b. same (entry false b) (table_class false b)) b outside_row h)
