-- ===== src/Agent/DevicePlugin/Waiting.antt =====
-- The wait of pkg/gpu/client.go ends, and what it has seen if it ends well.
use walkai_nos.Base.{
  Bool, true, false, some, ◌≡◌, refl, ◌⊎◌, inl, inr, List, [], ◌∷◌, String, String_eq, ℕ, zero, suc,
  ◌+◌, ◌≤◌, arith, Bool-cases, Option-cases, Option, ◌∙◌, ap,
}
use walkai_nos.Kube.{Pod}
use walkai_nos.Agent.DevicePlugin.{
  PluginCalls, PluginApi, listed, deleted, slept, pod_recreated, exactly_one, wait_until_running,
  restart,
}

abbrev pub sleeps : PluginCalls → ℕ
sleeps [] = 0
sleeps (slept ∷ t) = suc (sleeps t)
sleeps (listed ∷ t) = sleeps t
sleeps (deleted p ∷ t) = sleeps t

-- The time is over at the latest behind so many more sleeps.
abbrev pub EndsBehind : PluginApi → ℕ → PluginCalls → Type 0
EndsBehind api limit t = (u : PluginCalls) → limit + sleeps t ≤ sleeps u → api.is_over u ≡ true

-- A pod of another name runs, and is not being deleted.
abbrev pub RunsAgain : String → Pod → Type 0
RunsAgain old p = (¬ (p.name ≡ old)) × (p.is_deleted ≡ false) × (p.phase ≡ "Running")

-- The last call has listed one pod, which runs again.
abbrev pub SeenAgain : PluginApi → String → PluginCalls → Type 0
SeenAgain api old v =
    (u : PluginCalls) × (p : Pod) × (v ≡ listed ∷ u)
    × (api.list_pods u ≡ some (p ∷ []))
    × RunsAgain old p

recreated-RunsAgain :
    (old : String) (pods : List Pod)
    → pod_recreated old pods ≡ true
    → (p : Pod) × (pods ≡ p ∷ []) × RunsAgain old p
unfolding pod_recreated
recreated-RunsAgain old [] h = absurd (ground arith)
recreated-RunsAgain old (p ∷ []) h = (
  p,
  refl,
  (
    ground (arith, String_eq.same_iff p.name old),
    ground arith,
    ground (arith, String_eq.same_iff p.phase "Running"),
  ),
)
recreated-RunsAgain old (p ∷ q ∷ rest) h = absurd (ground arith)

the_one : (pods : List Pod) (p : Pod) → exactly_one pods ≡ some p → pods ≡ p ∷ []
unfolding exactly_one
the_one [] p h = absurd (ground arith)
the_one (q ∷ []) p h = ground arith
the_one (q ∷ r ∷ rest) p h = absurd (ground arith)

abbrev Ends : PluginApi → String → Option Bool × PluginCalls → Type 0
Ends api old r = (r.0 ≡ some false) ⊎ ((r.0 ≡ some true) × SeenAgain api old r.1)

module _ (api : PluginApi) where
  -- A round ends if the rounds behind it do.
  round-Ends :
      (rounds : ℕ) (old : String) (t : PluginCalls)
      → (api.is_over (listed ∷ t) ≡ false
          → Ends api old (wait_until_running api rounds old (slept ∷ listed ∷ t)))
      → Ends api old (wait_until_running api (suc rounds) old t)
  unfolding wait_until_running
  round-Ends rounds old t later = elim (Option-cases (api.list_pods t)) [
    | inl failed ↦ rw (failed, wait_until_running) (inl refl)
    | inr (pods, found) ↦
        rw (found, wait_until_running)
          (elim (Bool-cases (pod_recreated old pods)) [
            | inl again ↦
                let (p, one, runs) = recreated-RunsAgain old pods again in
                rw again (inr (refl, (t, p, refl, found ∙ ap some one, runs)))
            | inr not_yet ↦ rw not_yet (elim (Bool-cases (api.is_over (listed ∷ t))) [
              | inl late ↦ rw late (inl refl)
              | inr early ↦ rw early (later early)
            ])
          ])
  ]

  wait_until_running-Ends :
      (limit : ℕ) (old : String) (t : PluginCalls)
      → EndsBehind api limit t
      → Ends api old (wait_until_running api (suc limit) old t)
  wait_until_running-Ends zero old t ends =
      round-Ends 0 old t (λ early. absurd (ground (arith, ends (listed ∷ t) (omega arith))))
  wait_until_running-Ends (suc n) old t ends = round-Ends (suc n) old t (λ early.
      wait_until_running-Ends n old (slept ∷ listed ∷ t) (λ u h. ends u (omega (arith, h))))

  -- The time is over at the latest behind some number of sleeps. Then one round more is enough for a
  -- restart to return. Either it returns an error, or there was one pod of the plugin, its deletion
  -- succeeded, and the last call has listed one pod, which has another name, is not being deleted, and
  -- runs.
  pub restart-returns :
      (limit : ℕ) (t : PluginCalls)
      → EndsBehind api limit t
      → ((restart api (suc limit) t).0 ≡ some false)
        ⊎ (((restart api (suc limit) t).0 ≡ some true)
            × (old : Pod) × (api.list_pods t ≡ some (old ∷ []))
            × (api.delete_pod old (listed ∷ t) ≡ true)
            × SeenAgain api old.name (restart api (suc limit) t).1)
  unfolding restart
  restart-returns limit t ends = elim (Option-cases (api.list_pods t)) [
    | inl failed ↦ rw (failed, restart) (inl refl)
    | inr (pods, found) ↦
        rw (found, restart)
          (elim (Option-cases (exactly_one pods)) [
            | inl not_one ↦ rw not_one (inl refl)
            | inr (old, one) ↦ rw one (elim (Bool-cases (api.delete_pod old (listed ∷ t))) [
              | inr kept ↦ rw kept (inl refl)
              | inl gone ↦
                  rw gone
                    (elim (wait_until_running-Ends limit old.name (deleted old ∷ listed ∷ t) ends) [
                      | inl error ↦ inl error
                      | inr (done, seen) ↦
                          inr (done, old, ap some (the_one pods old one), gone, seen)
                    ])
            ])
          ])
  ]
