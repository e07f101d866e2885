-- ===== src/DisasterRecovery/Switchover/Caution.antt =====
-- What a switchover to standby leaves alone where the other side does not say that it is active.
use qubership_opensearch.Prelude.{
  ℕ, ◌⊎◌, inl, inr, String, ◌≡◌, refl, sym, ap, ◌∙◌, Bool, false, not, ◌==◌, ◌<>◌, Option, none,
  some, List, if◌then◌else◌,
}
use qubership_opensearch.Http.{
  Event, World, Error, message, Exec, ok, err, ◌>>=◌, attempted, pure, attempt, raise, dial,
}
use qubership_opensearch.Http.Trace.{
  Adds, Adds-bind, Adds-bind_of, Adds-pure, Adds-raise, Adds-attempt, Adds-dial, Adds-if,
}
use qubership_opensearch.Http.Success.{>>=-eq-ok, pure-eq-ok}
use qubership_opensearch.Replication.Manager.{ReplicationManager}
use qubership_opensearch.DisasterRecovery.Process.{
  error_of, try, if_no_error, remove_previous_replication,
}
use qubership_opensearch.DisasterRecovery.Switchover.{
  is_other_side_active, check_connection_with_other_side, Switched, switch_to_standby,
}
use qubership_opensearch.DisasterRecovery.Switchover.Removal.{IsHarmless, removal-IsHarmless}

module _ (w : World) (rm : ReplicationManager) where
  try-IsHarmless : (m : Exec Unit) → Adds (IsHarmless rm) m → Adds (IsHarmless rm) (try m)
  unfolding try
  try-IsHarmless m h = Adds-bind _ _ (Adds-attempt m h) (λ r. Adds-pure _)

  try_removal-IsHarmless :
      (b : Bool)
      → Adds (IsHarmless rm) (if b then try (remove_previous_replication w rm) else pure none)
  try_removal-IsHarmless b =
      Adds-if b _ _ (try-IsHarmless _ (removal-IsHarmless w rm)) (Adds-pure none)

  -- Nobody at the other side answers in the way that says that it is active.
  abbrev pub IsSilent : World → Type 0
  IsSilent v = (log : List Event) (url : String) → is_other_side_active (v.dial log url) ≡ false

  module _ (silent : IsSilent w) where
    connection-IsHarmless :
        (found : String ⊎ Error)
        → Adds (IsHarmless rm) (check_connection_with_other_side w rm found)
    unfolding check_connection_with_other_side
    connection-IsHarmless (inr e) = Adds-raise e
    connection-IsHarmless (inl url) =
        Adds-bind _ _ (Adds-dial w _ tt) λ answer. Adds-if _ _ _ (Adds-pure tt) (Adds-raise _)

    connection-fails :
        (found : String ⊎ Error) (log : List Event)
        → (e : Error) × ((check_connection_with_other_side w rm found log).0 ≡ err e)
    unfolding check_connection_with_other_side dial raise pure ◌>>=◌
    connection-fails (inr e) log = (e, refl)
    connection-fails (inl url) log = (
      message "there is active replication on the other side",
      rw (silent log ("http://" <> url)),
    )

    connected-some :
        (removed c : Option Error) (found : String ⊎ Error) (log : List Event)
        → (if_no_error removed (check_connection_with_other_side w rm found) log).0 ≡ ok c
        → (e : Error) × (c ≡ some e)
    unfolding if_no_error try attempt attempted error_of pure ◌>>=◌
    connected-some (some e) c found log h = (e, cc)
    connected-some none c found log h =
        let (e, failed) = connection-fails found log in (e, some_of e failed h)
      where
        some_of :
            (e : Error)
            → (check_connection_with_other_side w rm found log).0 ≡ err e
            → (if_no_error none (check_connection_with_other_side w rm found) log).0 ≡ ok c
            → c ≡ some e
        some_of e failed h = cc (rw failed at h)

    abbrev IsRefused : Switched → Type 0
    IsRefused s = (e : Error) × (s.error ≡ some e)

    -- An error is kept by the steps behind it, which do nothing.
    kept-IsHarmless : (e : Error) (m : Exec Unit) → Adds (IsHarmless rm) (if_no_error (some e) m)
    unfolding if_no_error
    kept-IsHarmless e m = Adds-pure (some e)

    kept :
        (e : Error) (m : Exec Unit) (log : List Event)
        → if_no_error (some e) m log ≡ (ok (some e), log)
    unfolding if_no_error pure
    kept e m log = refl

    kept-same :
        (e : Error) (m : Exec Unit) (log : List Event) (c : Option Error)
        → (if_no_error (some e) m log).0 ≡ ok c
        → c ≡ some e
    kept-same e m log c h = cc (h, kept e m log)

    kept-from :
        (e : Error) (x : Option Error) (m : Exec Unit) (log : List Event) (c : Option Error)
        → x ≡ some e
        → (if_no_error x m log).0 ≡ ok c
        → c ≡ some e
    kept-from e x m log c same h = kept-same e m log c (rw same at h)

    connect-IsHarmless :
        (removed : Option Error) (found : String ⊎ Error)
        → Adds (IsHarmless rm) (if_no_error removed (check_connection_with_other_side w rm found))
    unfolding if_no_error
    connect-IsHarmless none found = try-IsHarmless _ (connection-IsHarmless found)
    connect-IsHarmless (some e) found = Adds-pure (some e)

    -- Where the other side does not say that it is active, a switchover to standby deletes no
    -- index: each DELETE request that it sends is for the autofollow rule.
    pub switch_to_standby-IsHarmless :
        (status_mode : String) (found : String ⊎ Error) (attempts : ℕ)
        → Adds (IsHarmless rm) (switch_to_standby w rm status_mode found attempts)
    unfolding switch_to_standby
    switch_to_standby-IsHarmless status_mode found attempts =
        Adds-bind _ _ (try_removal-IsHarmless (not (status_mode == "active"))) λ removed.
          Adds-bind_of _ _ (connect-IsHarmless removed found) λ connected log1 h1.
            let (e, same) = connected-some removed connected found log1 h1 in
            rw same (
              Adds-bind_of _ _ (kept-IsHarmless e _) λ started log2 h2.
                rw (kept-same e _ log2 started h2)
                  (Adds-bind _ _ (kept-IsHarmless e _) (λ checked. Adds-pure _)))

    -- In that case the switchover, if it comes to an end without a panic, leaves an error.
    pub switch_to_standby-IsRefused :
        (status_mode : String) (found : String ⊎ Error) (attempts : ℕ) (log end : List Event)
        (s : Switched)
        → switch_to_standby w rm status_mode found attempts log ≡ (ok s, end)
        → IsRefused s
    unfolding switch_to_standby
    switch_to_standby-IsRefused status_mode found attempts log end s h =
        let (removed, first, h1) = >>=-eq-ok _ _ log h in
        let (connected, second, h2) = >>=-eq-ok _ _ _ h1 in
        let (started, third, h3) = >>=-eq-ok _ _ _ h2 in
        let (checked, fourth, h4) = >>=-eq-ok _ _ _ h3 in
        let (e, same) = connected-some removed connected found _ (ap (λ p. p.0) second) in
        let started_same = kept-from e connected _ _ started same (ap (λ p. p.0) third) in
        let checked_same = kept-from e started _ _ checked started_same (ap (λ p. p.0) fourth) in
        (e, sym (ap (λ (s : Switched). s.error) (pure-eq-ok _ _ h4).0) ∙ checked_same)
