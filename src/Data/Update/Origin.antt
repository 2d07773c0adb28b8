-- ===== src/Data/Update/Origin.antt =====
-- data/examples/update/main.rs: where a server's active update comes from.
use flip_flop_protocol.Common.{
  ℕ, ◌≡◌, refl, sym, ap, ◌∙◌, arith, Bool, true, Option, none, some, List, [], ◌∷◌, ◌⊎◌, inl, inr,
  Option-cases, if◌then◌else◌,
}
use flip_flop_protocol.Common.Text.{◌>>=◌, >>=-eq-some}
use flip_flop_protocol.Data.Crates.{Cipher, Extend, Codec}
use flip_flop_protocol.Data.Frame.{DataFrame}
use flip_flop_protocol.Data.Update.{Update, PrepareForUpdate, Version}
use flip_flop_protocol.Data.Update.Order.{version_cmp}
use flip_flop_protocol.Data.Update.Server.{
  UpdateInfo, is_gt, process_client_update_request, process_client_prepare_for_update_request,
  process_active_update, activate_update_if_new_version, active_update, receive_packet,
  receive_packets,
}

-- A predicate on some element.
abbrev pub AnyOf {ℓ} : {A : Type ℓ} → (A → Type 0) → List A → Type 0
AnyOf P [] = ⊥
AnyOf P (x ∷ xs) = P x ⊎ AnyOf P xs

abbrev SameUpdate : UpdateInfo → UpdateInfo → Type 0
SameUpdate i j = (i.cipher ≡ j.cipher) × (i.byte_len ≡ j.byte_len)

process_active_update-SameUpdate :
    (i : UpdateInfo) (u : Update) → SameUpdate i (process_active_update i u).1
unfolding process_active_update
process_active_update-SameUpdate i u = ground arith

module _ {E : Type 0} (frames : Codec E DataFrame) (extend : Extend) (updates : Codec E Update)
    (prepares : Codec E PrepareForUpdate) (new_cipher : List ℕ → Cipher) (server_cipher : Cipher)
    (current_version : Version) where
  -- A packet that the server reads with its own key as one that prepares the update, for a version
  -- above its own.
  abbrev pub Prepares : List ℕ → UpdateInfo → Type 0
  Prepares d info =
      (p : PrepareForUpdate) × (process_client_prepare_for_update_request frames extend updates
          prepares server_cipher d
        ≡ some p)
      × (is_gt (version_cmp p.version current_version) ≡ true)
      × (info.cipher ≡ new_cipher p.update_key.key)
      × (info.byte_len ≡ p.update_byte_len)

  abbrev Kept : Option UpdateInfo → UpdateInfo → Type 0
  Kept a info = (i : UpdateInfo) × (a ≡ some i) × SameUpdate i info

  activate-source :
      (p : PrepareForUpdate) (info : UpdateInfo)
      → activate_update_if_new_version new_cipher p current_version ≡ some info
      → (is_gt (version_cmp p.version current_version) ≡ true)
        × (info.cipher ≡ new_cipher p.update_key.key)
        × (info.byte_len ≡ p.update_byte_len)
  unfolding activate_update_if_new_version
  activate-source p info e = ground arith

  pub active_update_read :
      (a : Option UpdateInfo) (d : List ℕ) (i : UpdateInfo) (u : Update)
      → active_update frames extend updates prepares a d ≡ some (i, u)
      → (a ≡ some i)
        × (process_client_update_request frames extend updates prepares i.cipher d ≡ some u)
  unfolding active_update
  active_update_read none d i u e = absurd (ground arith)
  active_update_read (some j) d i u e =
      let (u', read, same) =
        >>=-eq-some (process_client_update_request frames extend updates prepares j.cipher d) _ e in
      let at : j ≡ i = ground arith in
      let same' : u' ≡ u = ground arith in (ap some at, rw same' at (rw at at read))

  over_or_kept :
      (over : Bool) (i info : UpdateInfo) → (if over then none else some i) ≡ some info → i ≡ info
  over_or_kept over i info e = ground arith

  replaced_or_kept :
      (o a : Option UpdateInfo) (info : UpdateInfo)
      → (elim o [ some i ↦ some i | none ↦ a ]) ≡ some info
      → (a ≡ some info) ⊎ (o ≡ some info)
  replaced_or_kept none a info e = inl e
  replaced_or_kept (some i) a info e = inr e

  receive_packet-source :
      (a : Option UpdateInfo) (d : List ℕ) (info : UpdateInfo)
      → receive_packet frames extend updates prepares new_cipher server_cipher current_version a d
        ≡ some info
      → Kept a info ⊎ Prepares d info
  unfolding receive_packet
  receive_packet-source a d info e =
      let request =
        process_client_prepare_for_update_request frames extend updates prepares server_cipher d in
      let activated =
        λ (p : PrepareForUpdate). activate_update_if_new_version new_cipher p current_version in
      elim (Option-cases (active_update frames extend updates prepares a d)) [
        | inl none_read ↦
            elim (replaced_or_kept (request >>= activated) a info
              (rw (none_read, receive_packet) at e)) [
                | inl kept ↦ inl (info, kept, (refl, refl))
                | inr new ↦
                    let (p, read, active) = >>=-eq-some request activated new in
                    let (newer, c, l) = activate-source p info active in inr (p, read, newer, c, l)
              ]
        | inr ((i, u), read) ↦
            let (over, i') = process_active_update i u in
            let same = over_or_kept over i' info (rw (read, receive_packet) at e) in
            let (c, l) = process_active_update-SameUpdate i u in
            inl (
              i,
              (active_update_read a d i u read).0,
              (
                c ∙ ap (λ (j : UpdateInfo). j.cipher) same,
                l ∙ ap (λ (j : UpdateInfo). j.byte_len) same,
              ),
            )
      ]

  receive_packets-source :
      (a : Option UpdateInfo) (ds : List (List ℕ)) (info : UpdateInfo)
      → receive_packets frames extend updates prepares new_cipher server_cipher current_version a ds
        ≡ some info
      → Kept a info ⊎ AnyOf (λ d. Prepares d info) ds
  unfolding receive_packets
  receive_packets-source a [] info e = inl (info, e, (refl, refl))
  receive_packets-source a (d ∷ ds) info e =
      elim (receive_packets-source
        (receive_packet frames extend updates prepares new_cipher server_cipher current_version a d)
        ds info e) [
          | inr later ↦ inr (inr later)
          | inl (i, here, (c, l)) ↦ elim (receive_packet-source a d i here) [
            | inl (j, at, (c', l')) ↦ inl (j, at, (c' ∙ c, l' ∙ l))
            | inr (p, read, newer, c', l') ↦ inr (inl (p, read, newer, sym c ∙ c', sym l ∙ l'))
          ]
        ]

  -- Whatever packets come to a server without an active update, an update that is active behind
  -- them is there because one of them is read under the server's own key as a message that
  -- prepares an update to a version above its own: the cipher of the active update is made of that
  -- message's key and its length is that message's.
  pub receive_packets-Prepares :
      (ds : List (List ℕ)) (info : UpdateInfo)
      → receive_packets frames extend updates prepares new_cipher server_cipher current_version none
          ds
        ≡ some info
      → AnyOf (λ d. Prepares d info) ds
  receive_packets-Prepares ds info e = elim (receive_packets-source none ds info e) [
    | inl (i, none_kept, same) ↦ absurd (ground arith)
    | inr prepared ↦ prepared
  ]
