-- ===== src/Engine/Storage/Follower/Order.antt =====
-- Mutations of other nodes in any order: server/internal/roomengine/engine.go.
use open_rtc.Base.{ℕ, ◌≤◌, ◌<◌, String, ◌≡◌, ◌≢◌, refl, ap, sym, subst, ◌∙◌, List, [], ◌∷◌, ◌++◌}
use open_rtc.Cluster.{Bytes}
use open_rtc.Engine.{Engine}
use open_rtc.Engine.Storage.{Documents, document_of, sequence_of}
use open_rtc.Engine.Storage.Follower.{
  Update, receive, receive_all, Content, receive-newer, receive-stale, receive-below,
}

module _ (docs : Documents) where
  -- Every update has a sequence, which is at most `n`.
  abbrev pub UpTo : ℕ → List Update → Type 0
  UpTo n [] = Unit {0}
  UpTo n (u ∷ us) = (u.options.sequence ≢ 0 × u.options.sequence ≤ n) × UpTo n us

  -- Every update has a sequence, which is below `n`.
  abbrev pub Before : ℕ → List Update → Type 0
  Before n [] = Unit {0}
  Before n (u ∷ us) = (u.options.sequence ≢ 0 × u.options.sequence < n) × Before n us

  receive_all-below :
      (e : Engine) (room : String) (us : List Update) (n : ℕ)
      → Before n us
      → sequence_of e room < n
      → sequence_of (receive_all docs e room us) room < n
  unfolding receive_all
  receive_all-below e room [] n b now = now
  receive_all-below e room (u ∷ us) n b now =
      receive_all-below (receive docs e room u) room us n b.1
        (receive-below docs e room u n b.0.0 b.0.1 now)

  receive_all-stale :
      (e : Engine) (room : String) (us : List Update)
      → UpTo (sequence_of e room) us
      → receive_all docs e room us ≡ e
  unfolding receive_all
  receive_all-stale e room [] b = refl
  receive_all-stale e room (u ∷ us) b =
      ap (λ f. receive_all docs f room us) (receive-stale docs e room u b.0.0 b.0.1)
      ∙ receive_all-stale e room us b.1

  receive_all-append :
      (e : Engine) (room : String) (us vs : List Update)
      → receive_all docs e room (us ++ vs) ≡ receive_all docs (receive_all docs e room us) room vs
  unfolding receive_all
  receive_all-append e room [] vs = refl
  receive_all-append e room (u ∷ us) vs = receive_all-append (receive docs e room u) room us vs

  -- However the mutations of other nodes for a room arrive, late, in any order or more than once,
  -- where every one of them has a sequence, that is, one other than 0: if one of them, of a valid
  -- kind and with a document that the node admits under the limit it has for it, is past the
  -- sequence of the room and past every one that came before it, and none that came after it is
  -- past it, then in the end the room has its document in the admitted form, none after a delete,
  -- and its sequence.
  pub last_writer_wins :
      (e : Engine) (room : String) (before after : List Update) (u : Update) (c : Bytes)
      → Content docs u c
      → sequence_of e room < u.options.sequence
      → Before u.options.sequence before
      → UpTo u.options.sequence after
      → let f = receive_all docs e room (before ++ (u ∷ after)) in
        (document_of f room ≡ c) × (sequence_of f room ≡ u.options.sequence)
  unfolding receive_all
  last_writer_wins e room before after u c content newer b a =
      let g = receive_all docs e room before in
      let took =
        receive-newer docs g room u c (receive_all-below e room before u.options.sequence b newer)
          content in
      let rest =
        receive_all-stale (receive docs g room u) room after
          (subst (λ n. UpTo n after) (sym took.1) a) in
      subst (λ f. (document_of f room ≡ c) × (sequence_of f room ≡ u.options.sequence))
        (sym (receive_all-append e room before (u ∷ after) ∙ rest)) took
