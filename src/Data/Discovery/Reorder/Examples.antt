-- ===== src/Data/Discovery/Reorder/Examples.antt =====
-- The theorem on the order of packets at a concrete input: a channel in which the second reply of a
-- time window overtakes the first.
use mathlib.Core.List.{Permᴰ}
use flip_flop_protocol.Common.{ℕ, ◌≡◌, refl, none, some, List, [], ◌∷◌}
use flip_flop_protocol.Common.Outcome.{Outcome, returns, panics, out_of_fuel, ◌>>=◌}
use flip_flop_protocol.Data.Frame.Toy.{toy_frames, toy_extend, toy_cipher}
use flip_flop_protocol.Data.Discovery.{rng_fixture}
use flip_flop_protocol.Data.Discovery.Toy.{toy_identifies, toy_identifieds}
use flip_flop_protocol.Data.Discovery.Server.{Station, server_loops}
use flip_flop_protocol.Data.Discovery.Client.{Channel, discover}
use flip_flop_protocol.Data.Discovery.Reorder.{IsReordered, discover-IsReordered}

abbrev overtaken : List (List ℕ) → List (List ℕ)
overtaken (d ∷ d' ∷ ds) = d' ∷ d ∷ ds
overtaken (d ∷ []) = d ∷ []
overtaken [] = []

overtaken-Permᴰ : (ds : List (List ℕ)) → Permᴰ ds (overtaken ds)
overtaken-Permᴰ (d ∷ d' ∷ ds) = Permᴰ.swap refl refl
overtaken-Permᴰ (d ∷ []) = Permᴰ.cons refl Permᴰ.nil
overtaken-Permᴰ [] = Permᴰ.nil

abbrev answers : List (Station ℕ) → List ℕ → Outcome (List (Station ℕ) × List (List ℕ))
answers = server_loops toy_frames toy_extend toy_cipher toy_identifieds rng_fixture toy_identifies

abbrev in_order : Channel (List (Station ℕ))
in_order ss packet = answers ss packet >>= λ (ss', packets). returns (ss', some packets)

abbrev out_of_order : Channel (List (Station ℕ))
out_of_order ss packet =
    answers ss packet >>= λ (ss', packets). returns (ss', some (overtaken packets))

window-IsReordered :
    (out : Outcome (List (Station ℕ) × List (List ℕ)))
    → IsReordered
        (out >>= λ (ss', packets). returns (ss', some packets))
        (out >>= λ (ss', packets). returns (ss', some (overtaken packets)))
window-IsReordered (returns (ss', packets)) = IsReordered.reordered ss' (overtaken-Permᴰ packets)
window-IsReordered panics = IsReordered.same panics
window-IsReordered out_of_fuel = IsReordered.same out_of_fuel

abbrev fresh : ℕ → Station ℕ
fresh rng = record { server_address = none; rng = rng; frame_counter = 0 }

abbrev servers : List (Station ℕ)
servers = fresh 4 ∷ fresh 4 ∷ fresh 7 ∷ []

discover-IsReordered_example :
    discover toy_frames toy_extend toy_cipher toy_identifies toy_identifieds in_order 5 servers
    ≡ discover toy_frames toy_extend toy_cipher toy_identifies toy_identifieds out_of_order 5
        servers
discover-IsReordered_example =
    discover-IsReordered toy_frames toy_extend toy_cipher toy_identifies toy_identifieds in_order
      out_of_order (λ ss packet. window-IsReordered (answers ss packet)) 5 servers
