-- ===== src/Via/Protocol/Refused.antt =====
-- The commands of rumcake/src/via/protocol_12/mod.rs that `process_via_command` does not carry out.
use rumcake.Prelude.{
  index, ℕ, zero, suc, ◌-◌, ◌<◌, ◌≡◌, ◌≢◌, ◌∙◌, refl, Bool, false, none, List, [], ◌∷◌, ok, arith,
  ap, if◌then◌else◌, get_elem?-beyond, ◌⊎◌, inl, inr, copy_slice_ok,
}
use rumcake.Via.Lights.{put, from_primitive}
use rumcake.Via.Protocol.Commands.{
  command_from_u8, commands, keyboard_value_from_u8, keyboard_values,
}
use rumcake.Via.Protocol.State.{Host, reply}
use rumcake.Via.Protocol.Dispatch.{
  Firmware, process_command, process_packet, process_via_command, process_known, get_value,
  set_value,
}

put_first :
    (byte : ℕ) (bytes : List ℕ) (value : ℕ) → put (byte ∷ bytes) 0 value ≡ ok (value ∷ bytes)
unfolding put
put_first byte bytes value =
    copy_slice_ok (byte ∷ bytes) 0 1 (value ∷ []) (omega arith) (omega arith)

command_from_u8-unknown :
    (id : ℕ) → (id ≡ 0) ⊎ ((0x15 < id) × (id ≢ 0xff)) → command_from_u8 id ≡ none
unfolding command_from_u8 from_primitive
command_from_u8-unknown id u = ground (arith, get_elem?-beyond commands (id - 1))

keyboard_value_from_u8-unknown : (id : ℕ) → (id ≡ 0) ⊎ (5 < id) → keyboard_value_from_u8 id ≡ none
unfolding keyboard_value_from_u8 from_primitive
keyboard_value_from_u8-unknown id u = ground (arith, get_elem?-beyond keyboard_values (id - 1))

module _ {L A : Type 0} (f : Firmware L A) where
  pub process_via_command_lem :
      (h : Host L)
      → f.handle_via_command h.packet ≡ (h.packet, false)
      → process_via_command f h ≡ process_packet f h
  unfolding process_via_command
  process_via_command_lem h left =
      ap
        (λ (p : List ℕ × Bool).
          let h' : Host L = record h { packet = p.0 } in if p.1 then ok h' else process_packet f h')
        left

  -- A command that the protocol does not know changes nothing, and the packet goes back as it came.
  unknown_command :
      (h : Host L) (id : ℕ) (rest : List ℕ)
      → f.handle_via_command (id ∷ rest) ≡ (id ∷ rest, false)
      → (id ≡ 0) ⊎ ((0x15 < id) × (id ≢ 0xff))
      → process_via_command f (record h { packet = id ∷ rest })
        ≡ ok (record h { packet = id ∷ rest })
  unfolding process_packet process_known index
  unknown_command h id rest left u =
      process_via_command_lem (record h { packet = id ∷ rest }) left
      ∙ ap (λ c. process_known f c (record h { packet = id ∷ rest })) (command_from_u8-unknown id u)

  refused :
      (h : Host L) (id sub : ℕ) (rest : List ℕ)
      → reply (record h { packet = id ∷ sub ∷ rest }) (put (id ∷ sub ∷ rest) 0 0xff)
        ≡ ok (record h { packet = 0xff ∷ sub ∷ rest })
  refused h id sub rest = rw put_first

  get_refused :
      (h : Host L) (sub : ℕ) (rest : List ℕ)
      → (sub ≡ 0) ⊎ (4 < sub)
      → get_value f (keyboard_value_from_u8 sub) (record h { packet = 2 ∷ sub ∷ rest })
        ≡ ok (record h { packet = 0xff ∷ sub ∷ rest })
  unfolding get_value keyboard_value_from_u8 from_primitive
  get_refused h zero rest u = refused h 2 _ rest
  get_refused h (suc zero) rest u = absurd (ground arith)
  get_refused h (suc (suc zero)) rest u = absurd (ground arith)
  get_refused h (suc (suc (suc zero))) rest u = absurd (ground arith)
  get_refused h (suc (suc (suc (suc zero)))) rest u = absurd (ground arith)
  get_refused h (suc (suc (suc (suc (suc zero))))) rest u = refused h 2 _ rest
  get_refused h (suc (suc (suc (suc (suc (suc n)))))) rest u =
      ap (λ v. get_value f v (record h { packet = 2 ∷ suc (suc (suc (suc (suc (suc n))))) ∷ rest }))
        (keyboard_value_from_u8-unknown (suc (suc (suc (suc (suc (suc n)))))) (inr (omega arith)))
      ∙ refused h 2 _ rest

  set_refused :
      (h : Host L) (sub : ℕ) (rest : List ℕ)
      → sub ≢ 2
      → sub ≢ 5
      → set_value f (keyboard_value_from_u8 sub) (record h { packet = 3 ∷ sub ∷ rest })
        ≡ ok (record h { packet = 0xff ∷ sub ∷ rest })
  unfolding set_value keyboard_value_from_u8 from_primitive
  set_refused h zero rest p q = refused h 3 _ rest
  set_refused h (suc zero) rest p q = refused h 3 _ rest
  set_refused h (suc (suc zero)) rest p q = absurd (p refl)
  set_refused h (suc (suc (suc zero))) rest p q = refused h 3 _ rest
  set_refused h (suc (suc (suc (suc zero)))) rest p q = refused h 3 _ rest
  set_refused h (suc (suc (suc (suc (suc zero))))) rest p q = absurd (q refl)
  set_refused h (suc (suc (suc (suc (suc (suc n)))))) rest p q =
      ap (λ v. set_value f v (record h { packet = 3 ∷ suc (suc (suc (suc (suc (suc n))))) ∷ rest }))
        (keyboard_value_from_u8-unknown (suc (suc (suc (suc (suc (suc n)))))) (inr (omega arith)))
      ∙ refused h 3 _ rest

  unsupported_packet :
      (h : Host L) (id sub : ℕ) (rest : List ℕ)
      → ((id ≡ 0xff) ⊎ ((id ≡ 2) × ((sub ≡ 0) ⊎ (4 < sub)))) ⊎ ((id ≡ 3) × (sub ≢ 2) × (sub ≢ 5))
      → process_packet f (record h { packet = id ∷ sub ∷ rest })
        ≡ ok (record h { packet = 0xff ∷ sub ∷ rest })
  unfolding process_packet process_known process_command index command_from_u8 from_primitive
  unsupported_packet h id sub rest (inl (inl e)) =
      ap (λ n. process_packet f (record h { packet = n ∷ sub ∷ rest })) e ∙ refused h 0xff sub rest
  unsupported_packet h id sub rest (inl (inr (e, u))) =
      ap (λ n. process_packet f (record h { packet = n ∷ sub ∷ rest })) e ∙ get_refused h sub rest u
  unsupported_packet h id sub rest (inr (e, p, q)) =
      ap (λ n. process_packet f (record h { packet = n ∷ sub ∷ rest })) e
      ∙ set_refused h sub rest p q

  -- If the keyboard does not handle the packet itself, these are answered with 0xff in the place of the
  -- command and change nothing else: the command 0xff, requests for a value of the keyboard other
  -- than the numbers 1 to 4, and requests to set one other than the numbers 2 and 5.
  pub unsupported_command :
      (h : Host L) (id sub : ℕ) (rest : List ℕ)
      → f.handle_via_command (id ∷ sub ∷ rest) ≡ (id ∷ sub ∷ rest, false)
      → ((id ≡ 0xff) ⊎ ((id ≡ 2) × ((sub ≡ 0) ⊎ (4 < sub)))) ⊎ ((id ≡ 3) × (sub ≢ 2) × (sub ≢ 5))
      → process_via_command f (record h { packet = id ∷ sub ∷ rest })
        ≡ ok (record h { packet = 0xff ∷ sub ∷ rest })
  unsupported_command h id sub rest left u =
      process_via_command_lem (record h { packet = id ∷ sub ∷ rest }) left
      ∙ unsupported_packet h id sub rest u
