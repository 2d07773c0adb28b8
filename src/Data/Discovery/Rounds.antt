-- ===== src/Data/Discovery/Rounds.antt =====
-- data/examples/discovery/main.rs: what a round of the client notes.
use flip_flop_protocol.Common.{
  ℕ, zero, suc, ◌+◌, ◌≤◌, ◌<◌, ◌≡◌, refl, sym, ap, ◌∙◌, arith, Bool, true, false, ◌&&◌, ◌||◌,
  Option, none, some, List, [], ◌∷◌, ◌==◌, if◌then◌else◌, length, get_or, set, replicate,
  length-set, length-replicate, Bool-cases, inl, inr, All, get_or-set_self, get_or-set_ne,
}
use flip_flop_protocol.Common.Outcome.{returns, index-eq-get_or}
use flip_flop_protocol.Data.Discovery.{Identify, Identified, max_addresses, is_address_set}
use flip_flop_protocol.Data.Discovery.Members.{IsIdentify, member, is_address_set-member}
use flip_flop_protocol.Data.Discovery.Round.{
  count_reply, count_replies, client_round, unique, note_all, note_all-IsIdentify,
  note_addresses-note_all, note_all-member,
}

-- A reply's address is a `u8`.
abbrev pub IsReply : Option Identified → Type 0
IsReply none = Unit
IsReply (some identified) = identified.server_address < max_addresses

-- How many replies have an address, and whether all could be read.
abbrev pub replied : ℕ → List (Option Identified) → ℕ
replied a [] = 0
replied a (none ∷ rs) = replied a rs
replied a (some identified ∷ rs) = (if identified.server_address == a then 1 else 0) + replied a rs

abbrev pub readable : List (Option Identified) → Bool
readable [] = true
readable (none ∷ rs) = false
readable (some _ ∷ rs) = readable rs

-- The counts behind a list of replies.
count_all : List ℕ → List (Option Identified) → List ℕ
count_all counts [] = counts
count_all counts (none ∷ rs) = count_all counts rs
count_all counts (some identified ∷ rs) =
    let a = identified.server_address in count_all (set counts a (get_or counts a 0 + 1)) rs

length-count_all :
    (counts : List ℕ) (rs : List (Option Identified)) → length (count_all counts rs) ≡ length counts
unfolding count_all
length-count_all counts [] = refl
length-count_all counts (none ∷ rs) = length-count_all counts rs
length-count_all counts (some identified ∷ rs) =
    let a = identified.server_address in
    length-count_all (set counts a (get_or counts a 0 + 1)) rs
    ∙ length-set counts a (get_or counts a 0 + 1)

count_replies-count_all :
    (counts : List ℕ) (finished : Bool) (rs : List (Option Identified))
    → length counts ≡ max_addresses
    → All IsReply rs
    → count_replies (counts, finished) rs ≡ returns (count_all counts rs, finished && readable rs)
unfolding count_replies count_reply count_all
count_replies-count_all counts finished [] h v = ground arith
count_replies-count_all counts finished (none ∷ rs) h (_, v) =
    count_replies-count_all counts false rs h v ∙ ground arith
count_replies-count_all counts finished (some identified ∷ rs) h (hv, v) =
    let a = identified.server_address in
    let new = get_or counts a 0 + 1 in
    rw (index-eq-get_or counts a 0 (omega arith)) (
      count_replies-count_all (set counts a new) finished rs
        (omega (arith, length-set counts a new)) v)

get_or-count_all :
    (counts : List ℕ) (rs : List (Option Identified)) (a : ℕ)
    → length counts ≡ max_addresses
    → a < max_addresses
    → All IsReply rs
    → get_or (count_all counts rs) a 0 ≡ get_or counts a 0 + replied a rs
unfolding count_all
get_or-count_all counts [] a h ha v = omega arith
get_or-count_all counts (none ∷ rs) a h ha (_, v) = get_or-count_all counts rs a h ha v
get_or-count_all counts (some identified ∷ rs) a h ha (hv, v) =
    let b = identified.server_address in
    let new = get_or counts b 0 + 1 in
    let rest =
      get_or-count_all (set counts b new) rs a (omega (arith, length-set counts b new)) ha v in
    elim (Bool-cases (b == a)) [
      | inl t ↦
          let same : b ≡ a = ground arith in
          let here = get_or-set_self counts a (get_or counts a 0 + 1) 0 (omega arith) in
          ground arith
      | inr t ↦ let here = get_or-set_ne counts b a new 0 (ground arith) in ground arith
    ]

get_or-replicate : (n a : ℕ) → get_or {A = ℕ} (replicate n 0) a 0 ≡ 0
get_or-replicate zero a = refl
get_or-replicate (suc n) zero = refl
get_or-replicate (suc n) (suc a) = get_or-replicate n a

unique-le : (counts : List ℕ) (a : ℕ) → unique counts ≡ true → get_or counts a 0 ≤ 1
unique-le [] a h = omega arith
unique-le (c ∷ cs) zero h = ground arith
unique-le (c ∷ cs) (suc a) h = unique-le cs a (ground arith)

unique_of_le :
    (counts : List ℕ) → ((a : ℕ) → a < length counts → get_or counts a 0 ≤ 1) → unique counts ≡ true
unique_of_le [] h = refl
unique_of_le (c ∷ cs) h =
    let here = h 0 (omega arith) in
    let rest = unique_of_le cs (λ a ha. h (suc a) (omega arith)) in ground arith

abbrev no_counts : List ℕ
no_counts = replicate max_addresses 0

client_round-note_all :
    (identify : Identify) (rs : List (Option Identified))
    → IsIdentify identify
    → All IsReply rs
    → client_round identify rs
      ≡ returns (
        note_all 0 (count_all no_counts rs) identify,
        readable rs && unique (count_all no_counts rs),
      )
unfolding client_round
client_round-note_all identify rs v h =
    let size = length-replicate {A = ℕ} max_addresses 0 in
    let counts = count_all no_counts rs in
    rw (count_replies-count_all no_counts true rs size h) (
      note_addresses-note_all 0 counts identify (readable rs) v
        (omega (arith, length-count_all no_counts rs, size)))

-- On a bit field of 32 bytes and replies whose addresses fit a byte, the client's round does not
-- panic and keeps the field's shape, and afterwards an address is set exactly if it was set before
-- or was replied exactly once.
pub client_round-is_address_set :
    (identify : Identify) (rs : List (Option Identified)) (a : ℕ) (known : Bool)
    → IsIdentify identify
    → All IsReply rs
    → a < max_addresses
    → is_address_set identify a ≡ returns known
    → (identify' : Identify) × (finished : Bool) × (client_round identify rs
        ≡ returns (identify', finished))
      × IsIdentify identify'
      × (is_address_set identify' a ≡ returns (known || (replied a rs == 1)))
client_round-is_address_set identify rs a known v h ha e =
    let size = length-replicate {A = ℕ} max_addresses 0 in
    let counts = count_all no_counts rs in
    let v' = note_all-IsIdentify 0 counts identify v in
    let same = sym (is_address_set-member a v ha) ∙ e in
    let noted =
      note_all-member 0 counts identify a v (omega (arith, length-count_all no_counts rs, size)) in
    let counted = get_or-count_all no_counts rs a size ha h in
    let none_before = get_or-replicate max_addresses a in
    (
      note_all 0 counts identify,
      readable rs && unique counts,
      client_round-note_all identify rs v h,
      v',
      is_address_set-member a v' ha ∙ ground arith,
    )

-- A round of the client that is finished had no reply that could not be read, and no address was
-- replied twice in it.
pub client_round-finished :
    (identify identify' : Identify) (rs : List (Option Identified)) (a : ℕ)
    → IsIdentify identify
    → All IsReply rs
    → a < max_addresses
    → client_round identify rs ≡ returns (identify', true)
    → (readable rs ≡ true) × (replied a rs ≤ 1)
client_round-finished identify identify' rs a v h ha e =
    let size = length-replicate {A = ℕ} max_addresses 0 in
    let counts = count_all no_counts rs in
    let ends = sym (client_round-note_all identify rs v h) ∙ e in
    let counted = get_or-count_all no_counts rs a size ha h in
    let none_before = get_or-replicate max_addresses a in
    (ground arith, ground (arith, unique-le counts a))

-- The round as a step of the set of addresses.
pub client_round-member :
    (identify : Identify) (rs : List (Option Identified))
    → IsIdentify identify
    → All IsReply rs
    → (identify' : Identify) × (finished : Bool) × (client_round identify rs
        ≡ returns (identify', finished))
      × IsIdentify identify'
      × ((a : ℕ)
          → a < max_addresses
          → member identify' a ≡ (member identify a || (replied a rs == 1)))
      × (finished ≡ true → (a : ℕ) → a < max_addresses → replied a rs ≤ 1)
      × (readable rs ≡ true → ((a : ℕ) → a < max_addresses → replied a rs ≤ 1) → finished ≡ true)
client_round-member identify rs v h =
    let size = length-replicate {A = ℕ} max_addresses 0 in
    let counts = count_all no_counts rs in
    let ran = client_round-note_all identify rs v h in
    (
      note_all 0 counts identify,
      readable rs && unique counts,
      ran,
      note_all-IsIdentify 0 counts identify v,
      λ a ha.
          let noted =
            note_all-member 0 counts identify a v
              (omega (arith, length-count_all no_counts rs, size)) in
          let counted = get_or-count_all no_counts rs a size ha h in
          let none_before = get_or-replicate max_addresses a in ground arith,
      λ e a ha.
          let (read, least) =
            client_round-finished identify (note_all 0 counts identify) rs a v h ha
              (ran ∙ ap (λ b. returns (note_all 0 counts identify, b)) e) in
          least,
      λ read most.
          let sizes = length-count_all no_counts rs in
          let none_twice = unique_of_le counts λ a ha.
            let in_range : a < max_addresses = omega (arith, sizes, size) in
            let counted = get_or-count_all no_counts rs a size in_range h in
            omega (arith, counted, get_or-replicate max_addresses a, most a in_range) in
          rw (read, none_twice) refl,
    )
