-- ===== src/Message/UserCmd/RoundTrips.antt =====
-- A `user_cmd_t` through Net_WriteDeltaUserCmd and Net_ReadDeltaUserCmd.
use quake2world.Prelude.{
  ℕ, ◌+◌, ◌%◌, ◌^◌, ◌≤◌, ◌<◌, ◌≡◌, refl, List, [], ◌∷◌, ◌++◌, arith, length, length-append,
  test_bit, from_bits, test_bit-from_bits, from_bits-lt, get_or, false,
}
use quake2world.MemBuf.{MemBuf}
use quake2world.MemBuf.Valid.{IsValid}
use quake2world.Message.Delta.{Reads-short_field, Reads-byte_field, Reads-bits8}
use quake2world.Message.Write.{short_bytes, given}
use quake2world.Message.Write.Rules.{
  Writes, Writes-seq, Writes-if, Writes-write_byte, Writes-write_short,
}
use quake2world.Message.Read.Rules.{Reads, Reads-bind, Reads-map, Reads-read_byte8}
use quake2world.Message.RoundTrip.{RoundTrip, roundtrip}
use quake2world.Message.UserCmd.{
  UserCmd, Short3, cmd_changes, write_delta_user_cmd, read_delta_user_cmd,
}

pub record InRange3 (v : Short3) : Type 0 where
  pub x : v.x < 2 ^ 16
  pub y : v.y < 2 ^ 16
  pub z : v.z < 2 ^ 16

-- The fields are within their C types.
pub record InRange (c : UserCmd) : Type 0 where
  pub msec : c.msec < 2 ^ 8
  pub buttons : c.buttons < 2 ^ 8
  pub angles : InRange3 c.angles
  pub forward : c.forward < 2 ^ 16
  pub right : c.right < 2 ^ 16
  pub up : c.up < 2 ^ 16

module _ (from to : UserCmd) where
  abbrev cmd_bits : ℕ
  cmd_bits = from_bits (cmd_changes from to)

  -- the bytes that the command goes by
  cmd_bytes : List ℕ
  cmd_bytes =
      (cmd_bits % 256 ∷ [])
      ++ (given (test_bit cmd_bits 0) (short_bytes to.angles.x)
          ++ (given (test_bit cmd_bits 1) (short_bytes to.angles.y)
              ++ (given (test_bit cmd_bits 2) (short_bytes to.angles.z)
                  ++ (given (test_bit cmd_bits 3) (short_bytes to.forward)
                      ++ (given (test_bit cmd_bits 4) (short_bytes to.right)
                          ++ (given (test_bit cmd_bits 5) (short_bytes to.up)
                              ++ (given (test_bit cmd_bits 6) (to.buttons % 256 ∷ [])
                                  ++ (to.msec % 256 ∷ []))))))))

  cmd-Writes : Writes (write_delta_user_cmd from to) cmd_bytes
  unfolding write_delta_user_cmd cmd_bytes
  cmd-Writes = Writes-seq (Writes-write_byte _) (
      Writes-seq (Writes-if _ (Writes-write_short _)) (
        Writes-seq (Writes-if _ (Writes-write_short _)) (
          Writes-seq (Writes-if _ (Writes-write_short _)) (
            Writes-seq (Writes-if _ (Writes-write_short _)) (
              Writes-seq (Writes-if _ (Writes-write_short _)) (
                Writes-seq (Writes-if _ (Writes-write_short _))
                  (Writes-seq (Writes-if _ (Writes-write_byte _)) (Writes-write_byte _))))))))

  bit_of : (k : ℕ) → test_bit cmd_bits k ≡ get_or (cmd_changes from to) k false
  bit_of k = test_bit-from_bits (cmd_changes from to) k

  cmd-Reads : InRange to → Reads (read_delta_user_cmd from) cmd_bytes to
  unfolding read_delta_user_cmd cmd_bytes
  cmd-Reads r =
      Reads-bind _ (Reads-bits8 cmd_bits (omega (arith, from_bits-lt (cmd_changes from to)))) (
        Reads-bind _ (Reads-short_field _ _ (bit_of 0) r.angles.x) (
          Reads-bind _ (Reads-short_field _ _ (bit_of 1) r.angles.y) (
            Reads-bind _ (Reads-short_field _ _ (bit_of 2) r.angles.z) (
              Reads-bind _ (Reads-short_field _ _ (bit_of 3) r.forward) (
                Reads-bind _ (Reads-short_field _ _ (bit_of 4) r.right) (
                  Reads-bind _ (Reads-short_field _ _ (bit_of 5) r.up) (
                    Reads-bind _ (Reads-byte_field _ _ (bit_of 6) r.buttons)
                      (Reads-map _ to refl (Reads-read_byte8 to.msec r.msec)))))))))

  length-cmd_bytes : length cmd_bytes ≤ 15
  unfolding cmd_bytes given
  length-cmd_bytes = ground (arith, length-append {0})

  -- A command whose fields are in range, written as a delta from any command where the buffer has
  -- 15 bytes of room, is what a receiver that has the same `from` reads back.
  pub delta_user_cmd_roundtrip :
      (buf : MemBuf)
      → InRange to
      → IsValid buf
      → buf.size + 15 ≤ buf.max_size
      → RoundTrip (write_delta_user_cmd from to) (read_delta_user_cmd from) to buf
  delta_user_cmd_roundtrip buf r v h =
      roundtrip cmd-Writes (cmd-Reads r) buf v (omega (arith, length-cmd_bytes))
