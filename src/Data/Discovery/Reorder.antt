-- ===== src/Data/Discovery/Reorder.antt =====
-- data/examples/discovery/main.rs: the order in which packets come in the client's time window.
mod Examples
use mathlib.Core.List.{Permᴰ}
use mathlib.Core.Path.{fun_ext}
use flip_flop_protocol.Common.{
  ℕ, zero, suc, ◌+◌, ◌≤◌, ◌≡◌, ◌≢◌, refl, sym, ap, ◌∙◌, arith, Bool, true, false, Option, none,
  some, List, [], ◌∷◌, ◌==◌, length, map, get_elem?, get_or, set, length-set, replicate, Bool-cases,
  get_or-set_ne, inl, inr, ◌&&◌, ltb, if◌then◌else◌,
}
use flip_flop_protocol.Common.Outcome.{
  Outcome, returns, panics, out_of_fuel, index-eq-get_or, ◌>>=◌,
}
use flip_flop_protocol.Common.Words.{u16}
use flip_flop_protocol.Data.Crates.{Cipher, Extend, Codec}
use flip_flop_protocol.Data.Frame.{DataFrame}
use flip_flop_protocol.Data.Discovery.{
  Identify, Identified, max_addresses, min_packet_size, min_payload_size, set_address,
}
use flip_flop_protocol.Data.Discovery.Packets.{process_server_reply}
use flip_flop_protocol.Data.Discovery.Round.{count_reply, count_replies, client_round}
use flip_flop_protocol.Data.Discovery.Client.{
  Channel, create_client_request, client_task, client_loop, discover,
}

module _ {A : Type 0} where
  get_elem?-none : (xs : List A) (i : ℕ) → length xs ≤ i → get_elem? xs i ≡ none
  get_elem?-none [] i h = refl
  get_elem?-none (x ∷ xs) zero h = absurd (omega arith)
  get_elem?-none (x ∷ xs) (suc i) h = get_elem?-none xs i (omega arith)

  set_comm : (xs : List A) (i j : ℕ) (v w : A) → i ≢ j → set (set xs i v) j w ≡ set (set xs j w) i v
  set_comm [] i j v w h = refl
  set_comm (x ∷ xs) zero zero v w h = absurd (h refl)
  set_comm (x ∷ xs) zero (suc j) v w h = refl
  set_comm (x ∷ xs) (suc i) zero v w h = refl
  set_comm (x ∷ xs) (suc i) (suc j) v w h = ap (x ∷◌) (set_comm xs i j v w (λ e. h (ap suc e)))

-- A reply with an address.
counted : List ℕ → ℕ → List ℕ
counted counts a = set counts a (get_or counts a 0 + 1)

length-counted : (counts : List ℕ) (a : ℕ) → length (counted counts a) ≡ length counts
unfolding counted
length-counted counts a = length-set counts a (get_or counts a 0 + 1)

counted_comm :
    (counts : List ℕ) (a b : ℕ) → counted (counted counts a) b ≡ counted (counted counts b) a
unfolding counted
counted_comm counts a b = elim (Bool-cases (a == b)) [
  | inl t ↦ let same : a ≡ b = ground arith in rw same refl
  | inr t ↦
      let other : a ≢ b = ground arith in
      let va = get_or counts a 0 + 1 in
      let vb = get_or counts b 0 + 1 in
      rw (get_or-set_ne counts a b va 0 other, get_or-set_ne counts b a vb 0 (ground arith))
        (set_comm counts a b va vb other)
]

-- What a packet makes of the counts, where its address is one of them.
abbrev has_room : List ℕ → Option Identified → Bool
has_room counts none = true
has_room counts (some identified) = ltb identified.server_address (length counts)

noted : List ℕ × Bool → Option Identified → List ℕ × Bool
noted (counts, finished) none = (counts, false)
noted (counts, finished) (some identified) = (counted counts identified.server_address, finished)

has_room-noted :
    (counts : List ℕ × Bool) (r r' : Option Identified)
    → has_room (noted counts r').0 r ≡ has_room counts.0 r
unfolding noted
has_room-noted counts none r' = refl
has_room-noted counts (some i) none = refl
has_room-noted counts (some i) (some j) = rw (length-counted counts.0 j.server_address) refl

noted_comm :
    (counts : List ℕ × Bool) (r r' : Option Identified)
    → noted (noted counts r) r' ≡ noted (noted counts r') r
unfolding noted
noted_comm counts none none = refl
noted_comm counts none (some i) = refl
noted_comm counts (some i) none = refl
noted_comm counts (some i) (some j) =
    rw (counted_comm counts.0 i.server_address j.server_address) refl

count_reply-noted :
    (counts : List ℕ × Bool) (r : Option Identified)
    → count_reply counts r ≡ (if has_room counts.0 r then returns (noted counts r) else panics)
unfolding count_reply noted counted
count_reply-noted counts none = refl
count_reply-noted counts (some i) = elim (Bool-cases (ltb i.server_address (length counts.0))) [
  | inl t ↦ rw (t, index-eq-get_or counts.0 i.server_address 0 (ground arith)) refl
  | inr t ↦ rw (t, get_elem?-none counts.0 i.server_address (ground arith)) refl
]

-- Two packets, in the order that they come in.
count_two-noted :
    (counts : List ℕ × Bool) (r r' : Option Identified)
    → (count_reply counts r >>= λ counts'. count_reply counts' r') ≡ (
        if has_room counts.0 r && has_room counts.0 r'
        then returns (noted (noted counts r) r')
        else panics)
count_two-noted counts r r' = elim (Bool-cases (has_room counts.0 r)) [
  | inl t ↦
      rw
        (
          count_reply-noted counts r,
          t,
          count_reply-noted (noted counts r) r',
          has_room-noted counts r' r,
        )
        refl
  | inr t ↦ rw (count_reply-noted counts r, t) refl
]

and_comm : (a b : Bool) → (a && b) ≡ (b && a)
and_comm a b = ground arith

count_two_comm :
    (counts : List ℕ × Bool) (r r' : Option Identified)
    → (count_reply counts r >>= λ counts'. count_reply counts' r')
      ≡ (count_reply counts r' >>= λ counts'. count_reply counts' r)
count_two_comm counts r r' =
    rw
      (
        count_two-noted counts r r',
        count_two-noted counts r' r,
        noted_comm counts r r',
        and_comm (has_room counts.0 r) (has_room counts.0 r'),
      )
      refl

>>=_assoc :
    {A B C : Type 0} (o : Outcome A) (f : A → Outcome B) (g : B → Outcome C)
    → (o >>= f >>= g) ≡ (o >>= λ a. f a >>= g)
>>=_assoc (returns a) f g = refl
>>=_assoc panics f g = refl
>>=_assoc out_of_fuel f g = refl

count_replies-Permᴰ :
    {rs rs' : List (Option Identified)}
    → Permᴰ rs rs'
    → (counts : List ℕ × Bool) → count_replies counts rs ≡ count_replies counts rs'
unfolding count_replies
count_replies-Permᴰ Permᴰ.nil counts = refl
count_replies-Permᴰ (Permᴰ.cons {b = r} {l₁ = rs} {l₂ = rs'} e p) counts =
    rw e (ap (count_reply counts r >>=◌) (fun_ext λ counts'. count_replies-Permᴰ p counts'))
count_replies-Permᴰ (Permᴰ.swap {a = a} {b = b} {l = rs} e e') counts =
    let after = λ (counts' : List ℕ × Bool). count_replies counts' rs in
    rw (← e, ← e')
      (sym (>>=_assoc (count_reply counts a) (λ counts'. count_reply counts' b) after)
        ∙ ap (◌>>= after) (count_two_comm counts a b)
        ∙ >>=_assoc (count_reply counts b) (λ counts'. count_reply counts' a) after)
count_replies-Permᴰ (Permᴰ.trans p p') counts =
    count_replies-Permᴰ p counts ∙ count_replies-Permᴰ p' counts

map-Permᴰ : {A B : Type 0} (f : A → B) {xs ys : List A} → Permᴰ xs ys → Permᴰ (map f xs) (map f ys)
map-Permᴰ f Permᴰ.nil = Permᴰ.nil
map-Permᴰ f (Permᴰ.cons e p) = Permᴰ.cons (ap f e) (map-Permᴰ f p)
map-Permᴰ f (Permᴰ.swap e e') = Permᴰ.swap (ap f e) (ap f e')
map-Permᴰ f (Permᴰ.trans p p') = Permᴰ.trans (map-Permᴰ f p) (map-Permᴰ f p')

client_round-Permᴰ :
    (identify : Identify) {rs rs' : List (Option Identified)}
    → Permᴰ rs rs'
    → client_round identify rs ≡ client_round identify rs'
unfolding client_round
client_round-Permᴰ identify p = rw (count_replies-Permᴰ p (replicate max_addresses 0, true)) refl

-- What a channel gives, with the packets of the time window in another order.
pub data IsReordered {W : Type 0}
    : Outcome (W × Option (List (List ℕ))) → Outcome (W × Option (List (List ℕ))) → Type 0 where
  same : (out : Outcome (W × Option (List (List ℕ)))) → IsReordered out out
  reordered :
      (servers : W) {packets packets' : List (List ℕ)}
      → Permᴰ packets packets'
      → IsReordered (returns (servers, some packets)) (returns (servers, some packets'))

module _ {E W : Type 0} (frames : Codec E DataFrame) (extend : Extend) (cipher : Cipher)
    (identifies : Codec E Identify) (identifieds : Codec E Identified) (channel mixed : Channel W)
    (reorders : (servers : W) (datagram : List ℕ)
      → IsReordered (channel servers datagram) (mixed servers datagram)) where
  -- What the task makes of what the channel gives.
  abbrev behind_window : Identify → W × Option (List (List ℕ)) → Outcome (W × Identify × Bool)
  behind_window identify (servers, none) = returns (servers, identify, true)
  behind_window identify (servers, some packets) =
      client_round identify (map (process_server_reply frames extend cipher identifieds) packets)
      >>= λ (identify', finished). returns (servers, identify', finished)

  received-IsReordered :
      (identify : Identify) {out out' : Outcome (W × Option (List (List ℕ)))}
      → IsReordered out out'
      → (out >>= behind_window identify) ≡ (out' >>= behind_window identify)
  received-IsReordered identify (IsReordered.same out) = refl
  received-IsReordered identify (IsReordered.reordered servers p) =
      rw
        (client_round-Permᴰ identify
          (map-Permᴰ (process_server_reply frames extend cipher identifieds) p))
        refl

  client_task-IsReordered :
      (servers : W) (identify : Identify) (frame_counter : ℕ)
      → client_task frames extend cipher identifies identifieds channel servers identify
          frame_counter
        ≡ client_task frames extend cipher identifies identifieds mixed servers identify
            frame_counter
  unfolding client_task
  client_task-IsReordered servers identify frame_counter =
      ap
        (create_client_request frames extend cipher identifies identifieds channel identify
          frame_counter (replicate min_packet_size 0) >>=◌)
        (fun_ext λ datagram. received-IsReordered identify (reorders servers datagram))

  client_loop-IsReordered :
      (fuel : ℕ) (servers : W) (identify : Identify) (frame_counter : ℕ)
      → client_loop frames extend cipher identifies identifieds channel fuel servers identify
          frame_counter
        ≡ client_loop frames extend cipher identifies identifieds mixed fuel servers identify
            frame_counter
  unfolding client_loop
  client_loop-IsReordered zero servers identify frame_counter = refl
  client_loop-IsReordered (suc fuel) servers identify frame_counter =
      rw (client_task-IsReordered servers identify frame_counter) (
        ap
          (client_task frames extend cipher identifies identifieds mixed servers identify
            frame_counter >>=◌)
          (fun_ext λ (servers', identify', finished).
            ap
              (λ (rest : Outcome (W × Identify × ℕ)).
                elim finished as (λ b. Outcome (W × Identify × ℕ)) [
                  | true ↦ returns (servers', identify', frame_counter)
                  | false ↦ rest
                ])
              (client_loop-IsReordered fuel servers' identify' (u16 (frame_counter + 1)))))

  -- Over two channels that differ in nothing but the order in which they give the packets of each
  -- of the client's time windows, whatever these packets are, discovery has the same outcome for
  -- any number of rounds: the same servers, the same addresses noted and the same frame counter,
  -- or the same panic.
  pub discover-IsReordered :
      (fuel : ℕ) (servers : W)
      → discover frames extend cipher identifies identifieds channel fuel servers
        ≡ discover frames extend cipher identifies identifieds mixed fuel servers
  unfolding discover
  discover-IsReordered fuel servers =
      ap (set_address (record { addresses = replicate min_payload_size 0 }) 0 >>=◌)
        (fun_ext λ identify. client_loop-IsReordered fuel servers identify 0)
