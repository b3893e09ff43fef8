-- ===== src/Starting/Forwards.antt =====
-- src/run.rs: what a parent hands to its worker is what the worker runs with.
use babysit.Prelude.{
  ℕ, ◌≡◌, ◌≢◌, refl, sym, ap, ◌∙◌, Bool, true, false, not, List, [], ◌∷◌, Option, none, some, Bytes,
  codes, if◌then◌else◌, ◌>>=◌,
}
use babysit.Starting.{
  RunArgs, Inputs, Context, read_limit, read_size, read_inputs, with_flag, millis_of, text_of_size,
  worker_flags, worker, launched, run, run_on, run_with, Announced,
}
use babysit.Starting.Parser.{
  Flag, detached_id, root, timeout, idle_timeout, size, view_cmd, flag_name, value_of, with_value,
  plain_args, IsPlain, IsClap,
}
use babysit.Starting.Launched.{launched_args}
use babysit.Starting.Printed.{
  Fits, FitsSize, FitsMillis, PlainValue, millis_of-PlainValue, text_of_size-PlainValue,
  read_limit-millis_of, read_size-text_of_size, read_limit-Fits, read_size-FitsSize,
}

-- A flag that is set to what there is.
set : Flag → Option Bytes → RunArgs → RunArgs
set detached_id v a = record a { detached_id = v }
set root v a = record a { root = v }
set timeout v a = record a { timeout = v }
set idle_timeout v a = record a { idle_timeout = v }
set size v a = record a { size = v }
set view_cmd v a = record a { view_cmd = v }

set-none : (f : Flag) (a : RunArgs) → value_of f a ≡ none → a ≡ set f none a
unfolding set value_of
set-none detached_id a e = ap (λ v. record a { detached_id = v }) e
set-none root a e = ap (λ v. record a { root = v }) e
set-none timeout a e = ap (λ v. record a { timeout = v }) e
set-none idle_timeout a e = ap (λ v. record a { idle_timeout = v }) e
set-none size a e = ap (λ v. record a { size = v }) e
set-none view_cmd a e = ap (λ v. record a { view_cmd = v }) e

set-some : (f : Flag) (v : Bytes) (a : RunArgs) → with_value f v a ≡ set f (some v) a
unfolding set with_value
set-some detached_id v a = refl
set-some root v a = refl
set-some timeout v a = refl
set-some idle_timeout v a = refl
set-some size v a = refl
set-some view_cmd v a = refl

-- The worker's arguments when they have been read.
abbrev given_args : Bytes → Bytes → Bool → Inputs → Option Bytes → List Bytes → RunArgs
given_args id dir no_tty i view cmd = record {
  id = none;
  detach = false;
  detached_id = some id;
  root = some dir;
  no_tty = no_tty;
  timeout = millis_of i.timeout;
  idle_timeout = millis_of i.idle_timeout;
  size = text_of_size i.size;
  view_cmd = view;
  json = false;
  cmd = cmd;
}

module _ (clap : List Bytes → Option RunArgs) (laws : IsClap clap) where
  with_flag-reads :
      (f : Flag) (v : Option Bytes) (rest : List Bytes) (a : RunArgs)
      → PlainValue v
      → clap rest ≡ some a
      → value_of f a ≡ none
      → clap (with_flag (flag_name f) v rest) ≡ some (set f v a)
  with_flag-reads f none rest a p e h = e ∙ ap some (set-none f a h)
  with_flag-reads f (some v) rest a p e h = laws.value f v rest a p e h ∙ ap some (set-some f v a)

  switched :
      (b : Bool) (rest : List Bytes) (a : RunArgs)
      → clap rest ≡ some a
      → a.no_tty ≡ false
      → clap (if b then codes "--no-tty" ∷ rest else rest) ≡ some (record a { no_tty = b })
  switched true rest a e h = laws.switch rest a e h
  switched false rest a e h = e ∙ ap (λ b. some (record a { no_tty = b })) h

  worker_flags-reads :
      (id dir : Bytes) (no_tty : Bool) (i : Inputs) (view : Option Bytes) (c : Bytes)
      (cmd : List Bytes)
      → Fits i.timeout
      → Fits i.idle_timeout
      → FitsSize i.size
      → IsPlain id
      → IsPlain dir
      → PlainValue view
      → clap (worker_flags id dir no_tty i view (c ∷ cmd))
        ≡ some (given_args id dir no_tty i view (c ∷ cmd))
  unfolding worker_flags flag_name value_of set with_value
  worker_flags-reads id dir no_tty i view c cmd ht hi hz pid pdir pview =
      let a0 = plain_args (c ∷ cmd) in
      let a1 = set view_cmd view a0 in
      let a2 = set size (text_of_size i.size) a1 in
      let a3 = set idle_timeout (millis_of i.idle_timeout) a2 in
      let a4 = set timeout (millis_of i.timeout) a3 in
      let a5 = record a4 { no_tty = no_tty } in
      let r0 = codes "--" ∷ c ∷ cmd in
      let e1 = with_flag-reads view_cmd view r0 a0 pview (laws.command c cmd) refl in
      let r1 = with_flag (codes "--view-cmd") view r0 in
      let e2 =
        with_flag-reads size (text_of_size i.size) r1 a1 (text_of_size-PlainValue i.size hz) e1
          refl in
      let r2 = with_flag (codes "--size") (text_of_size i.size) r1 in
      let e3 =
        with_flag-reads idle_timeout (millis_of i.idle_timeout) r2 a2
          (millis_of-PlainValue i.idle_timeout hi) e2 refl in
      let r3 = with_flag (codes "--idle-timeout") (millis_of i.idle_timeout) r2 in
      let e4 =
        with_flag-reads timeout (millis_of i.timeout) r3 a3 (millis_of-PlainValue i.timeout ht) e3
          refl in
      let r4 = with_flag (codes "--timeout") (millis_of i.timeout) r3 in
      let e5 = switched no_tty r4 a4 e4 refl in
      let r5 = if no_tty then codes "--no-tty" ∷ r4 else r4 in
      let e6 = laws.value root dir r5 a5 pdir e5 refl in
      laws.value detached_id id (codes "--root" ∷ dir ∷ r5) (record a5 { root = some dir }) pid e6
        refl

read_inputs_of :
    (x y : Option (Option ℕ)) (z : Option (Option (ℕ × ℕ))) (i : Inputs)
    → (x >>= λ timeout. y >>= λ idle_timeout.
        z >>= λ size. some (record { timeout = timeout; idle_timeout = idle_timeout; size = size }))
      ≡ some i
    → (x ≡ some i.timeout) × (y ≡ some i.idle_timeout) × (z ≡ some i.size)
read_inputs_of none y z i e = absurd (cc e)
read_inputs_of (some t) none z i e = absurd (cc e)
read_inputs_of (some t) (some u) none i e = absurd (cc e)
read_inputs_of (some t) (some u) (some z) i e =
    let same : record { timeout = t; idle_timeout = u; size = z } ≡ i = cc e in
    (
      ap (λ (j : Inputs). some j.timeout) same,
      ap (λ (j : Inputs). some j.idle_timeout) same,
      ap (λ (j : Inputs). some j.size) same,
    )

-- A parent that launches a worker hands on what it runs with: if clap reads arguments as it documents,
-- the timeouts fit into 64 bits of milliseconds, there is a command, and the id, the root and the view
-- command, if there is one, are neither empty nor look like flags, then the arguments are read, with the
-- parent's root, and from them `run` serves that id with the parent's command, terminal, timeouts, size
-- and view command.
pub run_forwards :
    (clap : List Bytes → Option RunArgs) (c there : Context) (o : RunArgs) (i : Inputs)
    (id exe : Bytes) (ann : Announced) (args : List Bytes) (attached : Bool)
    → IsClap clap
    → read_inputs o ≡ some i
    → run c o ≡ launched id ann exe (codes "run" ∷ args) attached
    → FitsMillis i.timeout
    → FitsMillis i.idle_timeout
    → o.cmd ≢ []
    → IsPlain id
    → IsPlain c.root
    → PlainValue o.view_cmd
    → (a : RunArgs) × (clap args ≡ some a)
      × (a.root ≡ some c.root)
      × (run there a ≡ worker o.cmd id (not o.no_tty) i.timeout i.idle_timeout i.size o.view_cmd)
unfolding run run_on run_with read_inputs
run_forwards clap c there o i id exe ann args attached laws inputs e ht hi some_cmd pid pdir pview =
    of_cmd o.cmd refl
  where
    read :
        (read_limit o.timeout ≡ some i.timeout)
        × (read_limit o.idle_timeout ≡ some i.idle_timeout)
        × (read_size o.size ≡ some i.size)
    read =
        read_inputs_of (read_limit o.timeout) (read_limit o.idle_timeout) (read_size o.size) i
          inputs

    ft : Fits i.timeout
    ft = read_limit-Fits o.timeout i.timeout read.0 ht

    fi : Fits i.idle_timeout
    fi = read_limit-Fits o.idle_timeout i.idle_timeout read.1 hi

    fz : FitsSize i.size
    fz = read_size-FitsSize o.size i.size read.2

    again :
        (read_limit (millis_of i.timeout) >>= λ timeout.
        read_limit (millis_of i.idle_timeout) >>= λ idle_timeout.
        read_size (text_of_size i.size) >>= λ size. some (
          let j : Inputs = record { timeout = timeout; idle_timeout = idle_timeout; size = size } in
          j))
        ≡ some i
    again =
        rw
          (
            read_limit-millis_of i.timeout ft,
            read_limit-millis_of i.idle_timeout fi,
            read_size-text_of_size i.size fz,
          )
          refl

    of_cmd :
        (cmd : List Bytes)
        → o.cmd ≡ cmd
        → (a : RunArgs) × (clap args ≡ some a)
          × (a.root ≡ some c.root)
          × (run there a
              ≡ worker o.cmd id (not o.no_tty) i.timeout i.idle_timeout i.size o.view_cmd)
    of_cmd [] h = absurd (some_cmd h)
    of_cmd (word ∷ words) h = (
      given_args id c.root o.no_tty i o.view_cmd (word ∷ words),
      ap clap (
            launched_args c o i id exe ann args attached e inputs
            ∙ ap (worker_flags id c.root o.no_tty i o.view_cmd) h)
          ∙ worker_flags-reads clap laws id c.root o.no_tty i o.view_cmd word words ft fi fz pid
              pdir pview,
      refl,
      ap (run_on there (given_args id c.root o.no_tty i o.view_cmd (word ∷ words))) again
          ∙ ap (λ k. worker k id (not o.no_tty) i.timeout i.idle_timeout i.size o.view_cmd) (sym h),
    )
