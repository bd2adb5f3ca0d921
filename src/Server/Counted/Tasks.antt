-- ===== src/Server/Counted/Tasks.antt =====
-- A background comparison is a use from when its task is queued until the worker counts down for it.
use ok_snap.Base.{
  ℕ, ◌≡◌, refl, ap, inl, inr, Bool, true, false, Option, none, some, List, [], ◌∷◌, arith,
  if◌then◌else◌, Bool-cases, ℤ, Text, text_eq,
}
use ok_snap.Server.Uses.{queued, held, count-append, use_of-inc, dec_use_count-ok, count}
use ok_snap.Server.Handlers.{add_task, on_snapshot, reply_created, describe, create_post_snapshot}
use ok_snap.Snapshots.Types.{Snapshot}
use ok_snap.Snapshots.Disk.{Faults}
use ok_snap.Snapshots.Table.{Snapshots}
use ok_snap.Exec.{Exec, ok, modify, ◌>>=◌, ◌>>◌}
use ok_snap.Exec.Keeps.{Keeps, bind-Keeps}
use ok_snap.Server.Counted.{IsBalanced, on_snapshots-IsBalanced, guarded-IsBalanced}
use ok_snap.Server.State.{
  Daemon, MetaSnapper, Task, find_config, on_snapshots, put_snapshots, inc_use_count, on_meta,
}
use ok_snap.Server.Loop.{work_on}

abbrev IsKnown : Text → List MetaSnapper → Type 0
IsKnown cn ms = (it : MetaSnapper) × (find_config cn ms ≡ some it)

abbrev AtConfig : Text → Daemon → Type 0
AtConfig cn d = IsBalanced d × IsKnown cn d.meta_snappers

put_snapshots-IsKnown :
    (cn : Text) (s : Snapshots) (ms : List MetaSnapper)
    → IsKnown cn ms
    → IsKnown cn (put_snapshots cn s ms)
unfolding put_snapshots find_config
put_snapshots-IsKnown cn s [] h = h
put_snapshots-IsKnown cn s (m ∷ ms) h = elim (Bool-cases (text_eq m.config_name cn)) [
  | inl hit ↦ (record m { snapshots = s }, rw (hit, hit))
  | inr miss ↦
      let (it, e) = put_snapshots-IsKnown cn s ms (h.0, rw miss at h.1) in (it, rw (miss, miss) e)
]

on_meta-IsKnown :
    (cn : Text) (f : MetaSnapper → MetaSnapper) (ms : List MetaSnapper)
    → ((m : MetaSnapper) → (f m).config_name ≡ m.config_name)
    → IsKnown cn ms
    → IsKnown cn (on_meta cn f ms)
unfolding on_meta find_config
on_meta-IsKnown cn f [] same h = h
on_meta-IsKnown cn f (m ∷ ms) same h = elim (Bool-cases (text_eq m.config_name cn)) [
  | inl hit ↦ (f m, rw (hit, same m, hit))
  | inr miss ↦
      let (it, e) = on_meta-IsKnown cn f ms same (h.0, rw miss at h.1) in (it, rw (miss, miss) e)
]

on_snapshots-AtConfig :
    {A : Type 0} (cn : Text) (m : Exec Snapshots A) → Keeps (AtConfig cn) (on_snapshots cn m)
unfolding on_snapshots
on_snapshots-AtConfig cn m d h =
    let (meta, hit) = h.1 in
    let known = put_snapshots-IsKnown cn (m meta.snapshots).1 d.meta_snappers h.1 in
    let balanced = on_snapshots-IsBalanced cn m d h.0 in (balanced, rw (hit, on_snapshots) known)

add_task-AtConfig :
    (cn : Text) (num1 num2 : ℕ) (d : Daemon) → AtConfig cn d → AtConfig cn (add_task cn num1 num2 d)
unfolding add_task inc_use_count count
add_task-AtConfig cn num1 num2 d (balanced, (it, hit)) =
    let task : Task = record { config_name = cn; num1 = num1; num2 = num2 } in
    (
      (λ name. omega (
        arith,
        use_of-inc cn name d.meta_snappers it hit,
        balanced name,
        count-append (λ (t : Task). t.config_name) name d.backgrounds (task ∷ []),
      )),
      on_meta-IsKnown cn _ d.meta_snappers (λ m. refl) (it, hit),
    )

module _ (faults : Faults) where
  queue_if :
      (background : Bool) (cn : Text) (pre_num num : ℕ)
      → Keeps (AtConfig cn) (modify (λ d. if background then add_task cn pre_num num d else d))
  queue_if true cn pre_num num d h = add_task-AtConfig cn pre_num num d h
  queue_if false cn pre_num num d h = h

  -- What `create_post_snapshot` does behind `createPostSnapshot`.
  post_described :
      (background : Bool) (uid : ℕ) (cn : Text) (pre_num : ℕ) (cleanup : Text)
      (userdata : List (Text × Text)) (snap : Snapshot)
      → Keeps (AtConfig cn) (
          describe faults uid cn cleanup userdata snap >>= (λ num.
            modify (λ d. if background then add_task cn pre_num num d else d)
            >> reply_created faults cn num))
  unfolding describe on_snapshot
  post_described background uid cn pre_num cleanup userdata snap =
      bind-Keeps (AtConfig cn) _ (describe faults uid cn cleanup userdata snap)
        (bind-Keeps (AtConfig cn) _ (on_snapshots cn _) (on_snapshots-AtConfig cn _) (λ _ d h. h))
        (λ num d h. queue_if background cn pre_num num d h)

  pub create_post_snapshot-IsBalanced :
      (now : ℤ) (background : Bool) (uid : ℕ) (cn : Text) (pre_num : ℕ) (description cleanup : Text)
      (userdata : List (Text × Text))
      → Keeps IsBalanced
          (create_post_snapshot faults now background uid cn pre_num description cleanup userdata)
  unfolding create_post_snapshot
  create_post_snapshot-IsBalanced now background uid cn pre_num description cleanup userdata =
      guarded-IsBalanced uid cn _ (λ it d hit h.
        (bind-Keeps (AtConfig cn) _ (on_snapshots cn _) (on_snapshots-AtConfig cn _)
          (post_described background uid cn pre_num cleanup userdata) d (h, (it, hit))).0)

pub work_on-IsBalanced :
    (worked : Option Task) (tasks : List Task) (d : Daemon)
    → tasks ≡ d.backgrounds
    → IsBalanced d
    → ((work_on worked tasks d).0 ≡ ok tt) × IsBalanced (work_on worked tasks d).1
unfolding count
work_on-IsBalanced (some t) tasks d e h = (refl, h)
work_on-IsBalanced none [] d e h = (refl, h)
work_on-IsBalanced none (t ∷ ts) d e h =
    let d' : Daemon = record d { worked = some t; backgrounds = ts } in
    let (done, after) =
      dec_use_count-ok t.config_name (λ name. held name d') d'
        (λ name. omega (arith, h name, ap (λ us. queued name us) e)) in
    rw done (refl, after)
