-- ===== src/Manager/Stop.antt =====
-- src/core/manager.cpp: what `Terminate` leaves behind.
use plugify.Prelude.{◌≡◌, ◌⊎◌, refl, inl, inr, true, false, List, [], ◌∷◌, All, Bool-cases, ltb}
use plugify.Extension.State.{
  ExtensionType, module_type, plugin_type, unknown_type, running, ending, ended, terminating,
  terminated, same_state, is_valid_transition,
}
use plugify.Extension.Core.{Extension, err, pipeline_failed, start_operation}
use plugify.Loader.Host.{Host, Loader}
use plugify.Loader.Frame.{SameCore, SameCore-refl, unload_module-SameCore, unload_plugin-SameCore}
use plugify.Pipeline.{execute, total_failed}
use plugify.Stages.Shared.{Env}
use plugify.Stages.States.{Now, start_operation-Now, end_operation-Now, SameCore-Now}
use plugify.Stages.Policy.{LeftOut}
use plugify.Manager.Core.{
  Manager, stages, fresh, initialize, end_extension, unload_by_type, terminate_extension,
  for_reverse, terminate,
}
use plugify.Manager.Passes.{Started}

abbrev Ended : Extension → Type 0
Ended e = ((t : ExtensionType) × Now t ended e) ⊎ LeftOut e

-- An extension that was running is terminated, and one that was left out still is.
abbrev pub Stopped : Extension → Type 0
Stopped e = ((t : ExtensionType) × Now t terminated e) ⊎ LeftOut e

end_extension-Ended :
    (env : Env) (l : Loader) (e : Extension) → Started e → Ended (end_extension env l e).1
unfolding end_extension is_valid_transition
end_extension-Ended env l e (inl (t, now)) =
    let h : same_state e.state running ≡ true = cc (now.state_is) in
    rw h (inl (t, end_operation-Now (start_operation-Now now ending refl) ended _ refl))
end_extension-Ended env l e (inr (t, inl now)) =
    let h : same_state e.state running ≡ false = cc (now.state_is) in rw h (inr (t, inl now))
end_extension-Ended env l e (inr (t, inr now)) =
    let h : same_state e.state running ≡ false = cc (now.state_is) in rw h (inr (t, inr now))

unload_by_type-SameCore :
    (h : Host) (t : ExtensionType) (l : Loader) (e : Extension)
    → SameCore e (unload_by_type h t l e).1
unload_by_type-SameCore h module_type l e = unload_module-SameCore h l e
unload_by_type-SameCore h plugin_type l e = unload_plugin-SameCore l e
unload_by_type-SameCore h unknown_type l e = SameCore-refl e

terminate_extension-Stopped :
    (env : Env) (l : Loader) (e : Extension) → Ended e → Stopped (terminate_extension env l e).1
unfolding terminate_extension is_valid_transition
terminate_extension-Stopped env l e (inl (t, now)) =
    let h : same_state e.state ended ≡ true = cc (now.state_is) in
    let e' = start_operation terminating e in
    rw h (
      inl (
        t,
        end_operation-Now
            (SameCore-Now (start_operation-Now now terminating refl)
              (unload_by_type-SameCore env.host e.type l e'))
            terminated _ refl,
      ))
terminate_extension-Stopped env l e (inr (t, inl now)) =
    let h : same_state e.state ended ≡ false = cc (now.state_is) in rw h (inr (t, inl now))
terminate_extension-Stopped env l e (inr (t, inr now)) =
    let h : same_state e.state ended ≡ false = cc (now.state_is) in rw h (inr (t, inr now))

for_reverse-All :
    (P Q : Extension → Type 0) (body : Loader → Extension → Loader × Extension)
    → ((l : Loader) (e : Extension) → P e → Q (body l e).1)
    → (l : Loader) (es : List Extension) → All P es
    → All Q (for_reverse body l es).1
unfolding for_reverse
for_reverse-All P Q body f l [] h = tt
for_reverse-All P Q body f l (e ∷ es) h = (f _ e h.0, for_reverse-All P Q body f l es h.1)

-- `Terminate` of an initialized manager whose extensions are running or were left out: afterwards it
-- is not initialized, and each extension that was running is terminated, through transitions that
-- `IsValidTransition` allows, while the others are still left out.
pub terminate-Stopped :
    (env : Env) (m : Manager)
    → m.initialized ≡ true
    → All Started m.extensions
    → ((terminate env m).initialized ≡ false) × All Stopped (terminate env m).extensions
unfolding terminate
terminate-Stopped env m i h = simp i (
  refl,
  for_reverse-All Ended Stopped (terminate_extension env) (terminate_extension-Stopped env) _ _ (
      for_reverse-All Started Ended (end_extension env) (end_extension-Ended env) m.loader
        m.extensions h),
)

-- `Terminate` after an `Initialize` that failed does nothing at all, so the modules that the loading
-- stage has started are never shut down.
pub terminate-initialize-failed :
    (env : Env) (found : List Extension) (m : Manager)
    → m.initialized ≡ false
    → (initialize env found m).1 ≡ err pipeline_failed
    → terminate env (initialize env found m).0 ≡ (initialize env found m).0
unfolding terminate initialize
terminate-initialize-failed env found m i r =
    elim (Bool-cases (ltb 0 (total_failed (execute (fresh m) (stages env) found).1))) [
      | inl f ↦ simp (i, f) refl
      | inr f ↦ absurd (cc (simp (i, f) at r))
    ]
