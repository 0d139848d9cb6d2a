-- ===== src/Filter/Wire.antt =====
-- The filter's test on a frame, in the bytes of the frame.
use packet_filter.Base.{ℕ, ◌&&◌, ◌==◌, List, ◌≡◌, ◌∙◌, take, drop}
use packet_filter.Network.Wire.{wire, IsBytes, range-wire}
use packet_filter.Hash
use packet_filter.Hash.{ToeplitzHash}
use packet_filter.Network
use packet_filter.Network.{NetworkPacket}
use packet_filter.Filter.{Phit, decide_action}
use packet_filter.Filter.Refinement.{decide_first}
use packet_filter.Filter.Spec.{admits}

-- The number of `n` bytes from byte `k` of a frame, the first byte lowest.
abbrev pub field : List ℕ → ℕ → ℕ → ℕ
field frame k n = wire (take n (drop k frame))

pub admits-frame :
    (t : ToeplitzHash) (p : Phit) (frame : List ℕ)
    → IsBytes frame
    → p.word ≡ wire frame
    → admits t p ≡ (
        field frame 12 2 == 0x0008
        && field frame 23 1 == 17
        && Hash.lookup t (field frame 30 4) (field frame 36 2) == 1)
unfolding admits
admits-frame t p frame bytes carried = rw (
  carried,
  range-wire frame 12 1 bytes,
  range-wire frame 23 0 bytes,
  range-wire frame 30 3 bytes,
  range-wire frame 36 1 bytes,
)

-- The action on a first phit that carries the bytes of `frame` is forward exactly if bytes 12 and 13
-- are 08 00, byte 23 is 17, and the table holds 1 for the address in bytes 30 to 33 and the port in
-- bytes 36 and 37, each read as the little-endian number of its bytes; the headers of the packet
-- before play no part.
pub decide-frame :
    (t : ToeplitzHash) (old : NetworkPacket) (p : Phit) (frame : List ℕ)
    → IsBytes frame
    → p.word ≡ wire frame
    → (decide_action t (Network.deserialize old p.word 0) == 1) ≡ (
        field frame 12 2 == 0x0008
        && field frame 23 1 == 17
        && Hash.lookup t (field frame 30 4) (field frame 36 2) == 1)
decide-frame t old p frame bytes carried =
    decide_first t old p ∙ admits-frame t p frame bytes carried
