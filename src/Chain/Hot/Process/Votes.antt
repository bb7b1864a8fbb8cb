-- ===== src/Chain/Hot/Process/Votes.antt =====
-- What AddAttestation of chain/hot.go changes.
use rumor.Base.{ℕ, ◌≡◌, refl, List, [], ◌∷◌, ok, err, panic}
use rumor.Base.Exec.{Exec, lift, modify, ◌>>=◌, continue}
use rumor.Base.Exec.Post.{Post, Outcome, failed, panicked, Post-lift-bind, Post-modify, Outcome-map}
use rumor.Chain.Zrnt.{Zrnt, ChainResult, ChainError}
use rumor.Chain.Entry.{HotEntry, epochs_context}
use rumor.Chain.Hot.{UnfinalizedChain, by_block_root}
use rumor.Chain.Hot.Process.{vote_all, cast_votes, add_attestation}

module _ (z : Zrnt) (att : z.Attestation) where
  -- The attesting indices of the attestation, as the committee of the entry's context gives them.
  pub record Attesters (entry : HotEntry z) (indices : List ℕ) : Type 0 where
    pub epc : z.Epc
    pub committee : List ℕ
    pub context : epochs_context entry ≡ ok epc
    pub members : z.get_beacon_committee epc (z.att_slot att) (z.att_index att) ≡ ok committee
    pub attesting : z.convert_to_indexed att committee ≡ ok indices

  -- A fork choice has processed a vote of each of these indices, in their order, for the
  -- attestation's block and target epoch, and nothing else.
  pub data Votes : List ℕ → z.ForkChoice → z.ForkChoice → Type 0 where
    all_cast : (fc : z.ForkChoice) → Votes [] fc fc
    vote :
        (i : ℕ) (is : List ℕ) (fc fc' : z.ForkChoice)
        → Votes is (z.process_attestation fc i (z.att_block_root att) (z.att_target_epoch att)) fc'
        → Votes (i ∷ is) fc fc'

  vote_all-Votes :
      (indices : List ℕ) (fc : z.ForkChoice)
      → Votes indices fc (vote_all z indices (z.att_block_root att) (z.att_target_epoch att) fc)
  unfolding vote_all
  vote_all-Votes [] fc = all_cast fc
  vote_all-Votes (i ∷ is) fc = vote i is fc _ (
      vote_all-Votes is
        (z.process_attestation fc i (z.att_block_root att) (z.att_target_epoch att)))

  -- The chain after the votes of all the attesting indices: only its fork choice has changed.
  abbrev pub Voted : HotEntry z → UnfinalizedChain z → UnfinalizedChain z → Type 0
  Voted entry uc uc' =
      (indices : List ℕ) × Attesters entry indices
      × Votes indices uc.fork_choice uc'.fork_choice
      × (uc' ≡ record uc { fork_choice = uc'.fork_choice })

  abbrev Unchanged : UnfinalizedChain z → UnfinalizedChain z → Type 0
  Unchanged uc uc' = uc' ≡ uc

  abbrev same : (uc : UnfinalizedChain z) → Unchanged uc uc
  same uc = refl

  -- The part of AddAttestation behind the lookup of the block.
  abbrev votes_of : HotEntry z → Exec ChainError (UnfinalizedChain z) (Unit {0})
  votes_of entry = lift (epochs_context entry) >>= λ epc.
      lift (z.get_beacon_committee epc (z.att_slot att) (z.att_index att)) >>= λ committee.
      lift (z.convert_to_indexed att committee) >>= λ indices. modify (cast_votes z att indices)

  votes_of-Voted :
      (entry : HotEntry z) → Post Unchanged (λ uc _ uc'. Voted entry uc uc') (votes_of entry)
  unfolding cast_votes
  votes_of-Voted entry = Post-lift-bind Unchanged same (epochs_context entry) _ (λ epc e.
      Post-lift-bind Unchanged same (z.get_beacon_committee epc (z.att_slot att) (z.att_index att))
        _
        (λ committee c.
          Post-lift-bind Unchanged same (z.convert_to_indexed att committee) _ (λ indices i.
            Post-modify Unchanged same (cast_votes z att indices) (λ uc. (
              indices,
              record { epc = epc; committee = committee; context = e; members = c; attesting = i },
              vote_all-Votes indices uc.fork_choice,
              refl,
            )))))

  -- The chain after an AddAttestation that found its block.
  abbrev pub VotedOn : UnfinalizedChain z → Unit {0} → UnfinalizedChain z → Type 0
  VotedOn uc _ uc' =
      (entry : HotEntry z) × (by_block_root uc (z.att_block_root att) ≡ ok entry)
      × Voted entry uc uc'

  votes_from :
      (uc : UnfinalizedChain z) (r : ChainResult (HotEntry z))
      → by_block_root uc (z.att_block_root att) ≡ r
      → Outcome (Unchanged uc) (VotedOn uc) (continue r votes_of uc)
  votes_from uc (ok entry) e =
      Outcome-map (λ _ uc'. Voted entry uc uc') (VotedOn uc) (λ _ uc' v. (entry, e, v))
        (votes_of entry uc) ((votes_of-Voted entry).at uc)
  votes_from uc (err x) e = failed x refl refl
  votes_from uc panic e = panicked refl refl

  -- AddAttestation either fails or panics and leaves the chain as it was, or has the fork choice
  -- process one vote of every attesting index, in order, each for the attestation's block and target
  -- epoch, and changes nothing else.
  pub add_attestation-Outcome :
      (uc : UnfinalizedChain z) → Outcome (Unchanged uc) (VotedOn uc) (add_attestation z att uc)
  unfolding add_attestation ◌>>=◌
  add_attestation-Outcome uc = votes_from uc (by_block_root uc (z.att_block_root att)) refl
