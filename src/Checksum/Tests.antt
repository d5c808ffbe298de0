-- ===== src/Checksum/Tests.antt =====
-- Runs of kernel/interfaces/system/net/checksum.cppm on a few bytes.
use ilobilix.Base.{ℕ, ◌+◌, ◌/◌, ◌%◌, ◌≡◌, ◌<◌, refl, List, [], ◌∷◌, ◌++◌, arith}
use ilobilix.Checksum.{compute, update, value, update_bytes, update_pairs, fold}
use ilobilix.Checksum.Sum.{IsBytes, word_sum, compute_lem, compute_verifies}

abbrev packet : List ℕ
packet = 69 ∷ 0 ∷ 255 ∷ 255 ∷ []

packet-IsBytes : IsBytes packet
packet-IsBytes = (omega arith, (omega arith, (omega arith, (omega arith, tt))))

compute-packet : compute packet ≡ 47871
unfolding compute value update_bytes update_pairs update fold
compute-packet = refl

compute_lem_example : (compute packet < 65536) × ((compute packet + word_sum packet) % 65535 ≡ 0)
compute_lem_example = compute_lem packet packet-IsBytes

compute_verifies_example :
    compute (packet ++ (compute packet / 256 ∷ compute packet % 256 ∷ [])) ≡ 0
compute_verifies_example = compute_verifies packet packet-IsBytes tt
