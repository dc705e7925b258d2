-- ===== src/Sync/Resume.antt =====
-- A collection of media that is cancelled goes on from its checkpoint.
use euvieouvi.Base.{
  ℕ, zero, suc, ◌+◌, ◌≡◌, ◌≢◌, inl, inr, refl, sym, ap, subst, ◌∙◌, String, false, Option, some,
  List, arith, Bool-cases,
}
use euvieouvi.Sync.Media.{ExternalMediaItem, Page, has_more}
use euvieouvi.Sync.Rows.{media}
use euvieouvi.Sync.Catalog.{Try, raised, returned}
use euvieouvi.Sync.Checkpoint.{IsReadBack, resume_position, resume_position-set_checkpoint}
use euvieouvi.Sync.Page.{Execution, persist_media_page}
use euvieouvi.Sync.Scan.{
  Setup, Library, cancelled, Turn, again, finished, aborted, Collected, collected, broken_off,
  media_stored, media_round, media_loop,
}

module _ {Rest : Type 0} (setup : Setup Rest) (library : Library) (updated_since : Option ℕ) where
  -- The same surroundings without a cancellation.
  abbrev pub undisturbed : Setup Rest
  undisturbed = record setup { is_cancelled = λ k. false }

  -- Between `e` and the cancelled `e'` the undisturbed loop makes `rounds` rounds, and the position
  -- where it then goes on is the one that the checkpoint of `e'` leads to.
  pub record IsResumable (fuel k start : ℕ) (seen : List String) (e e' : Execution Rest)
      : Type 0 where
    pub rounds : ℕ
    pub fuel_left : ℕ
    pub position : ℕ
    pub now_seen : List String
    pub spent : rounds + fuel_left ≡ fuel
    pub resumed : resume_position setup.services.json e'.checkpoint ≡ (media, position)
    pub same :
        media_loop undisturbed library updated_since fuel k start seen e
        ≡ media_loop undisturbed library updated_since fuel_left (k + rounds) position now_seen e'

  media_stored-undisturbed :
      (now start : ℕ) (seen : List String) (e : Execution Rest)
      (answer : Try (Page ExternalMediaItem))
      → media_stored undisturbed library now start seen e answer
        ≡ media_stored setup library now start seen e answer
  unfolding media_stored
  media_stored-undisturbed now start seen e (raised detail) = refl
  media_stored-undisturbed now start seen e (returned page) = refl

  media_round-undisturbed :
      (k start : ℕ) (seen : List String) (e : Execution Rest)
      → setup.is_cancelled k ≡ false
      → media_round undisturbed library updated_since k start seen e
        ≡ media_round setup library updated_since k start seen e
  unfolding media_round
  media_round-undisturbed k start seen e c = rw c (media_stored-undisturbed _ start seen _ _)

  -- Another round starts where the checkpoint says, and no stored page is a cancellation.
  IsOpen : Turn Rest → Type 0
  IsOpen (again n seen e) = resume_position setup.services.json e.checkpoint ≡ (media, n)
  IsOpen (finished seen e) = Unit
  IsOpen (aborted reason e) = reason ≢ cancelled

  media_stored-IsOpen :
      (read_back : IsReadBack setup.services.json) (now start : ℕ) (seen : List String)
      (e : Execution Rest) (answer : Try (Page ExternalMediaItem))
      → IsOpen (media_stored setup library now start seen e answer)
  unfolding media_stored IsOpen persist_media_page
  media_stored-IsOpen read_back now start seen e (raised detail) = λ same. cc same
  media_stored-IsOpen read_back now start seen e (returned page) =
      elim (Bool-cases (has_more page)) [
        | inl more ↦ rw more (resume_position-set_checkpoint setup.services.json _ _ _ _ read_back)
        | inr last ↦ rw last tt
      ]

  media_round-IsOpen :
      (read_back : IsReadBack setup.services.json) (k start : ℕ) (seen : List String)
      (e : Execution Rest)
      → setup.is_cancelled k ≡ false
      → IsOpen (media_round setup library updated_since k start seen e)
  unfolding media_round
  media_round-IsOpen read_back k start seen e c =
      rw c (media_stored-IsOpen read_back _ start seen _ _)

  abbrev pub loop_after : Setup Rest → ℕ → ℕ → Turn Rest → Option (Collected Rest)
  loop_after any fuel k (again n s e) = media_loop any library updated_since fuel (suc k) n s e
  loop_after any fuel k (finished s e) = some (collected (suc k) s e)
  loop_after any fuel k (aborted r e) = some (broken_off r e)

  pub loop_round :
      (any : Setup Rest) (fuel k start : ℕ) (seen : List String) (e : Execution Rest)
      (t : Turn Rest)
      → media_round any library updated_since k start seen e ≡ t
      → media_loop any library updated_since (suc fuel) k start seen e ≡ loop_after any fuel k t
  unfolding media_loop
  loop_round any fuel k start seen e (again n s e₁) round = rw (round, media_loop) refl
  loop_round any fuel k start seen e (finished s e₁) round = rw (round, media_loop) refl
  loop_round any fuel k start seen e (aborted r e₁) round = rw (round, media_loop) refl

  no_fuel :
      (any : Setup Rest) (k start : ℕ) (seen : List String) (e : Execution Rest)
      (c : Collected Rest)
      → media_loop any library updated_since zero k start seen e ≢ some c
  unfolding media_loop
  no_fuel any k start seen e c answer = cc answer

  one_round :
      (fuel k start : ℕ) (seen : List String) (e e' : Execution Rest) (t : Turn Rest)
      → media_round undisturbed library updated_since k start seen e ≡ t
      → IsOpen t
      → ((n : ℕ) (s : List String) (e₁ : Execution Rest)
          → resume_position setup.services.json e₁.checkpoint ≡ (media, n)
          → media_loop setup library updated_since fuel (suc k) n s e₁
            ≡ some (broken_off cancelled e')
          → IsResumable fuel (suc k) n s e₁ e')
      → loop_after setup fuel k t ≡ some (broken_off cancelled e')
      → IsResumable (suc fuel) k start seen e e'
  unfolding IsOpen
  one_round fuel k start seen e e' (again n s e₁) round is_open rest answer =
      let r = rest n s e₁ is_open answer in
      let later : suc k + r.rounds ≡ k + suc r.rounds = omega arith in
      record {
        rounds = suc r.rounds;
        fuel_left = r.fuel_left;
        position = r.position;
        now_seen = r.now_seen;
        spent = omega (arith, r.spent);
        resumed = r.resumed;
        same =
            (loop_round undisturbed fuel k start seen e (again n s e₁) round ∙ r.same)
            ∙ ap
                (λ j.
                  media_loop undisturbed library updated_since r.fuel_left j r.position r.now_seen
                    e')
                later;
      }
  one_round fuel k start seen e e' (finished s e₁) round is_open rest answer = absurd (cc answer)
  one_round fuel k start seen e e' (aborted r e₁) round is_open rest answer =
      absurd (is_open (cc answer))

  pub cancelled-IsResumable :
      (read_back : IsReadBack setup.services.json) (fuel k start : ℕ) (seen : List String)
      (e e' : Execution Rest)
      → resume_position setup.services.json e.checkpoint ≡ (media, start)
      → media_loop setup library updated_since fuel k start seen e ≡ some (broken_off cancelled e')
      → IsResumable fuel k start seen e e'
  unfolding media_round
  cancelled-IsResumable read_back zero k start seen e e' at answer =
      absurd (no_fuel setup k start seen e _ answer)
  cancelled-IsResumable read_back (suc fuel) k start seen e e' at answer =
      elim (Bool-cases (setup.is_cancelled k)) [
        | inl c ↦
            let stop : media_round setup library updated_since k start seen e
                ≡ aborted cancelled e =
              rw (c, media_round) refl in
            let no_round : k ≡ k + 0 = omega arith in
            let here : e ≡ e' =
              cc (loop_round setup fuel k start seen e (aborted cancelled e) stop, answer) in
            record {
              rounds = 0;
              fuel_left = suc fuel;
              position = start;
              now_seen = seen;
              spent = omega arith;
              resumed =
                  subst (λ x. resume_position setup.services.json x.checkpoint ≡ (media, start))
                    here at;
              same =
                  (ap (λ j. media_loop undisturbed library updated_since (suc fuel) j start seen e)
                    no_round)
                  ∙ ap
                      (λ x.
                        media_loop undisturbed library updated_since (suc fuel) (k + 0) start seen
                          x)
                      here;
            }
        | inr c ↦
            one_round fuel k start seen e e'
              (media_round setup library updated_since k start seen e)
              (media_round-undisturbed k start seen e c)
              (media_round-IsOpen read_back k start seen e c)
              (λ n s e₁ at₁ answer₁.
                cancelled-IsResumable read_back fuel (suc k) n s e₁ e' at₁ answer₁)
              (sym (loop_round setup fuel k start seen e _ refl) ∙ answer)
      ]
