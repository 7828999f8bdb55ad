-- ===== src/ChainTests/Ring/Encoding.antt =====
-- ring.ts: the bytes of the encoded members.
use polkadot_pop_e2e.Common.{◌≡◌, refl, some, List, [], ◌∷◌, ◌++◌, length, length-append}
use mathlib.Core.List.{append_assoc}
use polkadot_pop_e2e.ChainTests.Bytes.{Bytes, zeroed}
use polkadot_pop_e2e.ChainTests.Bytes.Writes.{write_at-append}
use polkadot_pop_e2e.ChainTests.Ring.{Codec, total_length, write_members, encode_members}

abbrev pub concatenated : List Bytes → Bytes
concatenated [] = []
concatenated (m ∷ ms) = m ++ concatenated ms

write_members_lem :
    (done : Bytes) (ms : List Bytes)
    → write_members (done ++ zeroed (total_length ms)) (length done) ms
      ≡ some (done ++ concatenated ms)
unfolding write_members
write_members_lem done [] = refl
write_members_lem done (m ∷ ms) = rw (write_at-append done m (total_length ms)) (
    rw (← length-append done m) (
      rw (← append_assoc done m (zeroed (total_length ms)))
        (rw (← append_assoc done m (concatenated ms)) (write_members_lem (done ++ m) ms))))

-- The bytes are those of the SCALE vector: the compact length, then every member in order. No
-- write is out of range.
pub encode_members_lem :
    (codec : Codec) (members : List Bytes)
    → encode_members codec members
      ≡ some (codec.compact_enc (length members) ++ concatenated members)
unfolding encode_members
encode_members_lem codec members =
    let len_prefix = codec.compact_enc (length members) in
    rw (write_at-append [] len_prefix (total_length members)) (write_members_lem len_prefix members)
