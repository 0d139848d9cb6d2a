-- ===== src/Filter/Spec.antt =====
-- What the filter promises: each packet is judged by its first phit and passes whole or not at all.
use packet_filter.Base.{Bool, List, [], ◌∷◌, ◌++◌, ◌&&◌, ◌==◌, if◌then◌else◌}
use packet_filter.Base.Range.{range}
use packet_filter.Hash
use packet_filter.Hash.{ToeplitzHash}
use packet_filter.Filter.{Phit, Event, arrive, configure, cycle}

-- The wire's view of a first phit: EtherType 0x0800 in network order, protocol 17, and a table
-- entry 1 for the destination address and port.
unfoldable pub admits : ToeplitzHash → Phit → Bool
admits t p =
    range p.word 111 96 == 0x0008
    && range p.word 191 184 == 17
    && Hash.lookup t (range p.word 271 240) (range p.word 303 288) == 1

pub data Mode : Type 0 where
  boundary : Mode
  inside : Bool → Mode

unfoldable pub verdict : ToeplitzHash → Mode → Phit → Bool
verdict t boundary p = admits t p
verdict t (inside b) p = b

unfoldable pub next_mode : ToeplitzHash → Mode → Phit → Mode
next_mode t m p = if p.last then boundary else inside (verdict t m p)

unfoldable pub final_mode : ToeplitzHash → Mode → List Phit → Mode
final_mode t m [] = m
final_mode t m (p ∷ ps) = final_mode t (next_mode t m p) ps

unfoldable pub emitted : ToeplitzHash → Mode → List Phit → List Phit
emitted t m [] = []
emitted t m (p ∷ ps) = (if verdict t m p then p ∷ [] else []) ++ emitted t (next_mode t m p) ps

-- The phits that a schedule brings.
unfoldable pub arrivals : List Event → List Phit
arrivals [] = []
arrivals (arrive p ∷ es) = p ∷ arrivals es
arrivals (configure c ∷ es) = arrivals es
arrivals (cycle ∷ es) = arrivals es
