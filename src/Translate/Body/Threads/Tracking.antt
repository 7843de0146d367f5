-- ===== src/Translate/Body/Threads/Tracking.antt =====
-- Keeping track of the handles of threads adds nothing to the net.
use conc_bug_dect_rust.Prelude.{
  List, Option, Option-cases, Text, codes, contains, contains_text, if_intro, inl, inr, list_eq,
  list_ord, lookup, nat_eq, nat_ord, none, pair_eq, pair_ord, refl, some, ℕ, ◌||◌, ◌≡◌,
}
use conc_bug_dect_rust.Translate.Body.{BodyState, Context}
use conc_bug_dect_rust.Translate.Body.Threads.{
  has_key, push_handle, resolve_vec_local, through_ref, track_into_iter,
  track_joinhandle_container_call, track_next, track_push,
}
use conc_bug_dect_rust.Translate.Mir.{Operand}

module _ (c : Context) where
  push_handle-net :
      (vec_local vec_root handle_local : ℕ) (s : BodyState)
      → (push_handle c vec_local vec_root handle_local s).net ≡ s.net
  unfolding push_handle
  push_handle-net vec_local vec_root handle_local s =
      elim (Option-cases (lookup handle_local s.spawn_handle_end)) [
        | inl e ↦ rw (e, push_handle) refl
        | inr (spawn_end, e) ↦ rw (e, push_handle) refl
      ]

  track_push-net :
      (first handle : Option ℕ) (s : BodyState) → (track_push c first handle s).net ≡ s.net
  unfolding track_push
  track_push-net none handle s = refl
  track_push-net (some v) none s =
      if_intro (λ (s' : BodyState). s'.net ≡ s.net)
        (contains c.joinhandle_vec_locals (resolve_vec_local (through_ref v s) s)) (λ _. refl)
        (λ _. refl)
  track_push-net (some v) (some handle) s =
      if_intro (λ (s' : BodyState). s'.net ≡ s.net)
        (contains c.joinhandle_vec_locals (resolve_vec_local (through_ref v s) s))
        (λ _. push_handle-net (through_ref v s) (resolve_vec_local (through_ref v s) s) handle s)
        (λ _. refl)

  track_into_iter-net :
      (first : Option ℕ) (destination : ℕ) (s : BodyState)
      → (track_into_iter c first destination s).net ≡ s.net
  unfolding track_into_iter
  track_into_iter-net none destination s = refl
  track_into_iter-net (some v) destination s =
      let vec_local = resolve_vec_local v s in
      if_intro (λ (s' : BodyState). s'.net ≡ s.net)
        (contains c.joinhandle_vec_locals vec_local || has_key vec_local s.vec_spawn_ends)
        (λ _. refl) (λ _. refl)

  track_next-net :
      (first : Option ℕ) (destination : ℕ) (s : BodyState)
      → (track_next c first destination s).net ≡ s.net
  unfolding track_next
  track_next-net none destination s = refl
  track_next-net (some v) destination s =
      elim (Option-cases (lookup (through_ref v s) s.iter_vec_source)) [
        | inl e ↦ rw (e, track_next) refl
        | inr (vec_local, e) ↦ rw (e, track_next) refl
      ]

  pub track_joinhandle_container_call-net :
      (name : Text) (args : List Operand) (destination : ℕ) (s : BodyState)
      → (track_joinhandle_container_call c name args destination s).net ≡ s.net
  unfolding track_joinhandle_container_call
  track_joinhandle_container_call-net name args destination s =
      let same : BodyState → Type 0 = λ s'. s'.net ≡ s.net in
      if_intro same (contains_text name (codes "::push")) (λ _. track_push-net _ _ s)
        (λ _.
          if_intro same (contains_text name (codes "into_iter"))
            (λ _. track_into_iter-net _ destination s)
            (λ _.
              if_intro same (contains_text name (codes "::next"))
                (λ _. track_next-net _ destination s) (λ _. refl)))
