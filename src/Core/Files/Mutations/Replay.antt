-- ===== src/Core/Files/Mutations/Replay.antt =====
-- One mutation on the registry: what it keeps, and how it is repeated.
use execution_provider.Prelude.{
  ℕ, ◌≤◌, ◌<◌, ◌≡◌, refl, sym, ap, subst, ◌∙◌, inl, inr, Bool, true, false, none, some, arith,
  Option-cases, is_some, length,
}
use execution_provider.Prelude.Text.{Text, same_text_refl, text_eq}
use execution_provider.Prelude.Dict.{get, get-insert_ne, get-insert_self, length-insert_new}
use execution_provider.Core.Errors.{Error, ok, err, Result-cases}
use execution_provider.Core.Files.{FilePrecondition, WriteFileMode}
use execution_provider.Core.Files.Mutations.{
  MutationFingerprint, MutationOutcome, same_bool, same_precondition, same_mode, same_fingerprint,
  Registry, Mutation, carry_out, answer_known, mutate,
}

same_bool_refl : (b : Bool) → same_bool b b ≡ true
same_bool_refl true = refl
same_bool_refl false = refl

same_precondition_refl : (p : FilePrecondition) → same_precondition p p ≡ true
same_precondition_refl FilePrecondition.missing = refl
same_precondition_refl (FilePrecondition.sha256 s) = same_text_refl s

same_mode_refl : (m : WriteFileMode) → same_mode m m ≡ true
same_mode_refl (WriteFileMode.conditional p) = same_precondition_refl p
same_mode_refl WriteFileMode.overwrite = refl

same_fingerprint_refl : (f : MutationFingerprint) → same_fingerprint f f ≡ true
same_fingerprint_refl (MutationFingerprint.write p s c m) =
    rw (same_text_refl p, same_text_refl s, same_bool_refl c, same_mode_refl m) refl
same_fingerprint_refl (MutationFingerprint.remove p a) =
    rw (same_text_refl p, same_precondition_refl a) refl
same_fingerprint_refl (MutationFingerprint.patch s) = same_text_refl s

module _ {Disk A : Type 0} where
  -- A recorded answer is the answer that is given again.
  abbrev pub IsReplayable : Mutation Disk A → Type 0
  IsReplayable m = (disk : Disk) → m.replay (m.outcome (m.run disk).0) ≡ (m.run disk).0

  mutate_known :
      (m : Mutation Disk A) (entry : MutationFingerprint × MutationOutcome) (registry : Registry)
      (disk : Disk)
      → get m.id registry ≡ some entry
      → mutate m registry disk ≡ answer_known m entry registry disk
  unfolding mutate
  mutate_known m entry registry disk h = rw (h, mutate) refl

  mutate_refused :
      (m : Mutation Disk A) (e : Error) (registry : Registry) (disk : Disk)
      → get m.id registry ≡ none
      → m.admit registry ≡ err e
      → mutate m registry disk ≡ (err e, registry, disk)
  unfolding mutate
  mutate_refused m e registry disk h k = rw (h, k, mutate) refl

  mutate_new :
      (m : Mutation Disk A) (u : Unit {0}) (registry : Registry) (disk : Disk)
      → get m.id registry ≡ none
      → m.admit registry ≡ ok u
      → mutate m registry disk ≡ carry_out m registry disk
  unfolding mutate
  mutate_new m u registry disk h k = rw (h, k, mutate) refl

  -- What a mutation does not touch: a recorded answer, under whatever identifier.
  pub mutate_keeps :
      (m : Mutation Disk A) (registry : Registry) (disk : Disk) (id : Text)
      (entry : MutationFingerprint × MutationOutcome)
      → get id registry ≡ some entry
      → get id (mutate m registry disk).1 ≡ some entry
  mutate_keeps m registry disk id entry h = elim (Option-cases (get m.id registry)) [
    | inr (old, known) ↦ ap (λ a. get id a.1) (mutate_known m old registry disk known) ∙ h
    | inl new ↦ elim (Result-cases (m.admit registry)) [
      | inr (e, refused) ↦ ap (λ a. get id a.1) (mutate_refused m e registry disk new refused) ∙ h
      | inl (u, admitted) ↦
          ap (λ a. get id a.1) (mutate_new m u registry disk new admitted)
          ∙ get-insert_ne m.id id (m.fingerprint, m.outcome (m.run disk).0) registry
              (λ same. absurd (cc (ap (λ i. get i registry) same, new, h)))
          ∙ h
    ]
  ]

  -- A mutation is admitted only below the capacity.
  abbrev pub IsLimited : ℕ → Mutation Disk A → Type 0
  IsLimited maximum m =
      (registry : Registry) (u : Unit {0}) → m.admit registry ≡ ok u → length registry < maximum

  pub mutate_bounded :
      (maximum : ℕ) (m : Mutation Disk A) (registry : Registry) (disk : Disk)
      → IsLimited maximum m
      → length registry ≤ maximum
      → length (mutate m registry disk).1 ≤ maximum
  mutate_bounded maximum m registry disk limited h = elim (Option-cases (get m.id registry)) [
    | inr (old, known) ↦
        subst (λ a. length a.1 ≤ maximum) (sym (mutate_known m old registry disk known)) h
    | inl new ↦ elim (Result-cases (m.admit registry)) [
      | inr (e, refused) ↦
          subst (λ a. length a.1 ≤ maximum) (sym (mutate_refused m e registry disk new refused)) h
      | inl (u, admitted) ↦
          subst (λ a. length a.1 ≤ maximum) (sym (mutate_new m u registry disk new admitted))
            (omega (
              arith,
              limited registry u admitted,
              length-insert_new m.id (m.fingerprint, m.outcome (m.run disk).0) registry new,
            ))
    ]
  ]

  answer_again :
      (m : Mutation Disk A) (entry : MutationFingerprint × MutationOutcome)
      (registry later : Registry) (disk now : Disk)
      → get m.id later ≡ some entry
      → mutate m later now ≡ ((answer_known m entry registry disk).0, later, now)
  answer_again m entry registry later disk now h = mutate_known m entry later now h

  pub mutate_replays :
      (m : Mutation Disk A) (registry later : Registry) (disk now : Disk)
      → IsReplayable m
      → is_some (get m.id (mutate m registry disk).1) ≡ true
      → get m.id later ≡ get m.id (mutate m registry disk).1
      → mutate m later now ≡ ((mutate m registry disk).0, later, now)
  mutate_replays m registry later disk now faithful recorded kept =
      elim (Option-cases (get m.id registry)) [
        | inr (old, known) ↦
            let first = mutate_known m old registry disk known in
            answer_again m old registry later disk now (kept ∙ ap (λ a. get m.id a.1) first ∙ known)
            ∙ ap (λ a. (a.0, later, now)) (sym first)
        | inl new ↦ elim (Result-cases (m.admit registry)) [
          | inr (e, refused) ↦
              let first = mutate_refused m e registry disk new refused in
              absurd (cc (recorded, ap (λ a. is_some (get m.id a.1)) first, ap is_some new))
          | inl (u, admitted) ↦
              let first = mutate_new m u registry disk new admitted in
              let entry : MutationFingerprint × MutationOutcome =
                (m.fingerprint, m.outcome (m.run disk).0) in
              mutate_known m entry later now
                (kept ∙ ap (λ a. get m.id a.1) first ∙ get-insert_self m.id entry registry)
              ∙ rw (same_fingerprint_refl m.fingerprint, faithful disk) refl
              ∙ ap (λ a. (a.0, later, now)) (sym first)
        ]
      ]
