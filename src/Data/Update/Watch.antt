-- ===== src/Data/Update/Watch.antt =====
-- data/examples/update/main.rs: the bytes that a server takes for an update, beside its state. The
-- source says in place of them that its buffer is flashed.
pub mod Steps
use flip_flop_protocol.Common.{
  ℕ, ◌+◌, ◌≡◌, refl, sym, ◌∙◌, arith, not, Option, none, some, List, [], ◌∷◌, ◌++◌, ◌==◌,
  if◌then◌else◌, length, length-append, append_assoc, append-nil, All, All-append, Bool-cases,
  Option-cases, inl, inr,
}
use flip_flop_protocol.Common.Text.{◌>>=◌, >>=-eq-some}
use flip_flop_protocol.Data.Crates.{Cipher, Extend, Codec}
use flip_flop_protocol.Data.Frame.{DataFrame}
use flip_flop_protocol.Data.Update.{Update, PrepareForUpdate, Version}
use flip_flop_protocol.Data.Update.Server.{
  UpdateInfo, process_client_update_request, process_client_prepare_for_update_request,
  process_active_update, activate_update_if_new_version, active_update, receive_packet,
  receive_packets,
}
use flip_flop_protocol.Data.Update.Origin.{active_update_read}

-- The bytes taken for the active update, and those of each update that was finished.
pub record Watch : Type 0 where
  pub active : Option UpdateInfo
  pub buffer : List ℕ
  pub finished : List (List ℕ)

-- With an update for the active one: its bytes are kept unless that ends it, which an update at
-- the offset that is expected does by finishing it, and any other by having it abandoned.
abbrev pub take_update : UpdateInfo → Update → List ℕ → List (List ℕ) → List ℕ × List (List ℕ)
take_update update_info update buffer finished =
    if not (process_active_update update_info update).0
    then (buffer ++ update.bytes, finished)
    else if update.byte_offset == update_info.next_byte_offset
    then ([], finished ++ (buffer ++ update.bytes) ∷ [])
    else ([], finished)

-- By what the packet is read as: an update of the active one, or a message that prepares one.
abbrev pub take_packet :
    Option (UpdateInfo × Update)
    → Option UpdateInfo
    → List ℕ
    → List (List ℕ)
    → List ℕ × List (List ℕ)
take_packet (some (update_info, update)) new buffer finished =
    take_update update_info update buffer finished
take_packet none (some _) buffer finished = ([], finished)
take_packet none none buffer finished = (buffer, finished)

-- The active update behind the packet.
abbrev pub next_active :
    Option (UpdateInfo × Update) → Option UpdateInfo → Option UpdateInfo → Option UpdateInfo
next_active (some (i, u)) new active =
    if (process_active_update i u).0 then none else some (process_active_update i u).1
next_active none (some i) active = some i
next_active none none active = active

module _ {E : Type 0} (frames : Codec E DataFrame) (extend : Extend) (updates : Codec E Update)
    (prepares : Codec E PrepareForUpdate) (new_cipher : List ℕ → Cipher) (server_cipher : Cipher)
    (current_version : Version) where
  -- A message that prepares an update to a later version empties the buffer.
  abbrev pub prepared : List ℕ → Option UpdateInfo
  prepared d =
      process_client_prepare_for_update_request frames extend updates prepares server_cipher d
      >>= λ p. activate_update_if_new_version new_cipher p current_version

  unfoldable pub watch_packet : Watch → List ℕ → Watch
  watch_packet w d =
      let taken =
        take_packet (active_update frames extend updates prepares w.active d) (prepared d) w.buffer
          w.finished in
      record {
        active =
            receive_packet frames extend updates prepares new_cipher server_cipher current_version
              w.active d;
        buffer = taken.0;
        finished = taken.1;
      }

  unfoldable pub watch_packets : Watch → List (List ℕ) → Watch
  unfolding watch_packet
  watch_packets w [] = w
  watch_packets w (d ∷ ds) = watch_packets (watch_packet w d) ds

  pub watch_packets-receive_packets :
      (w : Watch) (ds : List (List ℕ))
      → (watch_packets w ds).active
        ≡ receive_packets frames extend updates prepares new_cipher server_cipher current_version
            w.active ds
  unfolding watch_packets receive_packets
  watch_packets-receive_packets w [] = refl
  watch_packets-receive_packets w (d ∷ ds) = watch_packets-receive_packets (watch_packet w d) ds

prefix_eq :
    {A : Type 0} (xs ys xs' ys' : List A)
    → xs ++ ys ≡ xs' ++ ys'
    → length xs ≡ length xs'
    → (xs ≡ xs') × (ys ≡ ys')
prefix_eq [] ys [] ys' e h = (refl, e)
prefix_eq [] ys (x' ∷ xs') ys' e h = absurd (omega arith)
prefix_eq (x ∷ xs) ys [] ys' e h = absurd (omega arith)
prefix_eq (x ∷ xs) ys (x' ∷ xs') ys' e h =
    let (front, back) = prefix_eq xs ys xs' ys' (ground arith) (omega arith) in (ground arith, back)

-- The update's bytes stand in the whole at its offset.
abbrev pub IsPart : List ℕ → Update → Type 0
IsPart bytes u =
    (before : List ℕ) × (after : List ℕ) × (bytes ≡ before ++ (u.bytes ++ after))
    × (length before ≡ u.byte_offset)

-- What the server has of an active update is the beginning of the whole.
abbrev pub IsBeginning : Cipher → List ℕ → Option UpdateInfo → List ℕ → Type 0
IsBeginning cipher bytes none buffer = Unit
IsBeginning cipher bytes (some update_info) buffer =
    (update_info.cipher ≡ cipher)
    × (update_info.byte_len ≡ length bytes)
    × (length buffer ≡ update_info.next_byte_offset)
    × ((rest : List ℕ) × (bytes ≡ buffer ++ rest))

abbrev pub IsWatch : Cipher → List ℕ → Watch → Type 0
IsWatch cipher bytes w =
    IsBeginning cipher bytes w.active w.buffer × All (λ image. image ≡ bytes) w.finished

part_follows :
    (bytes buffer rest : List ℕ) (u : Update)
    → bytes ≡ buffer ++ rest
    → IsPart bytes u
    → length buffer ≡ u.byte_offset
    → (after : List ℕ) × (bytes ≡ (buffer ++ u.bytes) ++ after)
part_follows bytes buffer rest u e (before, after, e', at) h =
    let (same, tail) = prefix_eq before (u.bytes ++ after) buffer rest (sym e' ∙ e) (at ∙ sym h) in
    (after, e' ∙ rw same (sym (append_assoc buffer u.bytes after)))

-- Bytes as long as the whole that begin it are the whole.
whole_of_beginning :
    (bytes image after : List ℕ)
    → bytes ≡ image ++ after
    → length image ≡ length bytes
    → image ≡ bytes
whole_of_beginning bytes image after e h =
    let (same, none_left) = prefix_eq image after bytes [] (sym e ∙ sym (append-nil bytes)) h in
    same

take_update-IsWatch :
    (cipher : Cipher) (bytes : List ℕ) (i : UpdateInfo) (u : Update) (buffer : List ℕ)
    (finished : List (List ℕ))
    → IsBeginning cipher bytes (some i) buffer
    → IsPart bytes u
    → All (λ image. image ≡ bytes) finished
    → IsBeginning cipher bytes
        (if (process_active_update i u).0 then none else some (process_active_update i u).1)
        (take_update i u buffer finished).0
      × All (λ image. image ≡ bytes) (take_update i u buffer finished).1
unfolding process_active_update
take_update-IsWatch cipher bytes i u buffer finished (c, l, at, (rest, e)) part all =
    elim (Bool-cases (u.byte_offset == i.next_byte_offset)) [
      | inr t ↦ rw t (tt, all)
      | inl t ↦
          let len = length-append buffer u.bytes in
          let (after, e') = part_follows bytes buffer rest u e part (ground arith) in
          elim (Bool-cases (i.next_byte_offset + length u.bytes == i.byte_len)) [
            | inl d ↦
                let size : length (buffer ++ u.bytes) ≡ length bytes = ground arith in
                rw (t, d)
                  (
                    tt,
                    All-append (λ image. image ≡ bytes) finished ((buffer ++ u.bytes) ∷ []) all
                        (whole_of_beginning bytes (buffer ++ u.bytes) after e' size, tt),
                  )
            | inr d ↦ rw (t, d) ((c, l, omega arith, (after, e')), all)
          ]
    ]

module _ {E : Type 0} (frames : Codec E DataFrame) (extend : Extend) (updates : Codec E Update)
    (prepares : Codec E PrepareForUpdate) (new_cipher : List ℕ → Cipher) (server_cipher : Cipher)
    (current_version : Version) where
  -- What a packet is read as, under the server's key and under the update's, is of this update.
  abbrev pub IsOf : Cipher → List ℕ → List ℕ → Type 0
  IsOf cipher bytes d =
      ((p : PrepareForUpdate)
        → process_client_prepare_for_update_request frames extend updates prepares server_cipher d
          ≡ some p
        → (new_cipher p.update_key.key ≡ cipher) × (p.update_byte_len ≡ length bytes))
      × ((u : Update)
          → process_client_update_request frames extend updates prepares cipher d ≡ some u
          → IsPart bytes u)

  activated-IsBeginning :
      (cipher : Cipher) (bytes : List ℕ) (p : PrepareForUpdate) (i : UpdateInfo)
      → new_cipher p.update_key.key ≡ cipher
      → p.update_byte_len ≡ length bytes
      → activate_update_if_new_version new_cipher p current_version ≡ some i
      → IsBeginning cipher bytes (some i) []
  unfolding activate_update_if_new_version
  activated-IsBeginning cipher bytes p i c l e =
      let same : i.cipher ≡ new_cipher p.update_key.key = ground arith in
      (same ∙ c, ground arith, ground arith, (bytes, refl))

  pub receive_packet-next_active :
      (active : Option UpdateInfo) (d : List ℕ)
      → receive_packet frames extend updates prepares new_cipher server_cipher current_version
          active d
        ≡ next_active
            (active_update frames extend updates prepares active d)
            (prepared frames extend updates prepares new_cipher server_cipher current_version d)
            active
  unfolding receive_packet
  receive_packet-next_active active d =
      elim (Option-cases (active_update frames extend updates prepares active d)) [
        | inr ((i, u), read) ↦ rw (read, receive_packet) refl
        | inl none_read ↦
            elim (Option-cases (
              prepared frames extend updates prepares new_cipher server_cipher current_version d)) [
                | inr (i, new) ↦ rw (none_read, new, receive_packet) refl
                | inl none_new ↦ rw (none_read, none_new, receive_packet) refl
              ]
      ]

  next_active-IsWatch :
      (cipher : Cipher) (bytes : List ℕ) (w : Watch) (d : List ℕ)
      (read : Option (UpdateInfo × Update)) (new : Option UpdateInfo)
      → active_update frames extend updates prepares w.active d ≡ read
      → prepared frames extend updates prepares new_cipher server_cipher current_version d ≡ new
      → IsOf cipher bytes d
      → IsWatch cipher bytes w
      → IsBeginning cipher bytes
          (next_active read new w.active)
          (take_packet read new w.buffer w.finished).0
        × All (λ image. image ≡ bytes) (take_packet read new w.buffer w.finished).1
  next_active-IsWatch cipher bytes w d (some (i, u)) new e e' (of_prepare, of_update)
        (begins, all) =
      let (at, read) =
        active_update_read frames extend updates prepares new_cipher server_cipher current_version
          w.active d i u e in
      let begun = rw at at begins in
      take_update-IsWatch cipher bytes i u w.buffer w.finished begun
        (of_update u (rw begun.0 at read)) all
  next_active-IsWatch cipher bytes w d none (some i) e e' (of_prepare, of_update) (begins, all) =
      let (p, read, active) =
        >>=-eq-some
          (process_client_prepare_for_update_request frames extend updates prepares server_cipher d)
          (λ p. activate_update_if_new_version new_cipher p current_version) e' in
      let (c, l) = of_prepare p read in (activated-IsBeginning cipher bytes p i c l active, all)
  next_active-IsWatch cipher bytes w d none none e e' (of_prepare, of_update) (begins, all) =
      (begins, all)

  watch_packet-IsWatch :
      (cipher : Cipher) (bytes : List ℕ) (w : Watch) (d : List ℕ)
      → IsOf cipher bytes d
      → IsWatch cipher bytes w
      → IsWatch cipher bytes
          (watch_packet frames extend updates prepares new_cipher server_cipher current_version w d)
  unfolding watch_packet
  watch_packet-IsWatch cipher bytes w d of_d is =
      let read = active_update frames extend updates prepares w.active d in
      let new =
        prepared frames extend updates prepares new_cipher server_cipher current_version d in
      rw (receive_packet-next_active w.active d)
        (next_active-IsWatch cipher bytes w d read new refl refl of_d is)

  -- The invariant, behind packets whose contents are of the update.
  pub watch_packets-IsWatch :
      (cipher : Cipher) (bytes : List ℕ) (w : Watch) (ds : List (List ℕ))
      → All (IsOf cipher bytes) ds
      → IsWatch cipher bytes w
      → IsWatch cipher bytes (
          watch_packets frames extend updates prepares new_cipher server_cipher current_version w
            ds)
  unfolding watch_packets
  watch_packets-IsWatch cipher bytes w [] of_ds is = is
  watch_packets-IsWatch cipher bytes w (d ∷ ds) (of_d, of_ds) is =
      watch_packets-IsWatch cipher bytes
        (watch_packet frames extend updates prepares new_cipher server_cipher current_version w d)
        ds of_ds (watch_packet-IsWatch cipher bytes w d of_d is)
