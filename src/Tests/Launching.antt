-- ===== src/Tests/Launching.antt =====
-- Starting a session: src/run.rs.
use babysit.Prelude.{
  ◌≡◌, refl, true, false, List, [], ◌∷◌, Option, none, some, Bytes, codes, bytes_eq, if◌then◌else◌,
  arith, ap, ◌∙◌,
}
use babysit.Session.Ids.{make_id, validate_id}
use babysit.Durations.{
  parse_timeout, parse_duration, strip_suffix, unit_secs, digits, parse_unsigned, parse_size,
  split_once,
}
use babysit.Starting.{
  run_with, run_on, run_parent, RunArgs, Inputs, Context, run, read_inputs, launched, worker,
  as_json, worker_flags, supervisor_exe,
}
use babysit.Starting.Parser.{
  Flag, detached_id, root, timeout, idle_timeout, size, view_cmd, flag_name, value_of, with_value,
  plain_args, dashed, IsPlain, IsClap,
}
use babysit.Starting.Forwards.{run_forwards}

-- A reader of arguments, in which what stands in front of `--` are flags.
flag_of : Bytes → Option Flag
flag_of w =
    if bytes_eq w (codes "--detached-id")
    then some detached_id
    else if bytes_eq w (codes "--root")
    then some root
    else if bytes_eq w (codes "--timeout")
    then some timeout
    else if bytes_eq w (codes "--idle-timeout")
    then some idle_timeout
    else if bytes_eq w (codes "--size")
    then some size
    else if bytes_eq w (codes "--view-cmd")
    then some view_cmd
    else none

abbrev switched : Option RunArgs → Option RunArgs
switched none = none
switched (some a) = some (record a { no_tty = true })

abbrev set_value : Flag → Bytes → Option RunArgs → Option RunArgs
unfolding with_value
set_value f v none = none
set_value f v (some a) = some (with_value f v a)

abbrev valued : Option Flag → Bytes → Option RunArgs → Option RunArgs
unfolding set_value dashed
valued none v r = none
valued (some f) v r = if dashed v then none else set_value f v r

reader : List Bytes → Option RunArgs
unfolding flag_of valued bytes_eq
reader [] = none
reader (w ∷ []) = none
reader (w ∷ v ∷ rest) =
    let behind_switch = reader (v ∷ rest) in
    let behind_value = reader rest in
    if bytes_eq w (codes "--")
    then some (plain_args (v ∷ rest))
    else if bytes_eq w (codes "--no-tty")
    then switched behind_switch
    else valued (flag_of w) v behind_value

reader-IsClap : IsClap reader
unfolding reader flag_name flag_of valued set_value bytes_eq
reader-IsClap = record { command = λ c cmd. refl; switch = switch; value = value }
  where
    switch :
        (rest : List Bytes) (a : RunArgs)
        → reader rest ≡ some a
        → a.no_tty ≡ false
        → reader (codes "--no-tty" ∷ rest) ≡ some (record a { no_tty = true })
    switch [] a e h = absurd (cc e)
    switch (v ∷ rest) a e h = ap switched e

    value :
        (f : Flag) (v : Bytes) (rest : List Bytes) (a : RunArgs)
        → IsPlain v
        → reader rest ≡ some a
        → value_of f a ≡ none
        → reader (flag_name f ∷ v ∷ rest) ≡ some (with_value f v a)
    value detached_id v rest a p e h = rw (p.not_dashed, e) refl
    value root v rest a p e h = rw (p.not_dashed, e) refl
    value timeout v rest a p e h = rw (p.not_dashed, e) refl
    value idle_timeout v rest a p e h = rw (p.not_dashed, e) refl
    value size v rest a p e h = rw (p.not_dashed, e) refl
    value view_cmd v rest a p e h = rw (p.not_dashed, e) refl

abbrev a_context : Context
a_context = record {
  root = codes "/home/me/.babysit";
  is_cli = true;
  supervisor = none;
  proc_self_exe = true;
  current_exe = none;
  new_id = λ i. codes "3a7f";
  dir_exists = λ id. false;
  spawns = true;
}

-- `run --id ID --timeout 90s --size 120x40 --detach --json -- make`
abbrev requested : Bytes → RunArgs
requested id = record {
  id = some id;
  detach = true;
  detached_id = none;
  root = none;
  no_tty = true;
  timeout = some (codes "90s");
  idle_timeout = none;
  size = some (codes "120x40");
  view_cmd = none;
  json = true;
  cmd = codes "make" ∷ [];
}

abbrev the_inputs : Inputs
the_inputs = record { timeout = some 90000; idle_timeout = none; size = some (120, 40) }

abbrev the_flags : Bytes → List Bytes
the_flags id = worker_flags id (codes "/home/me/.babysit") true the_inputs none (codes "make" ∷ [])

inputs_read : (id : Bytes) → read_inputs (requested id) ≡ some the_inputs
unfolding read_inputs parse_timeout parse_duration strip_suffix unit_secs digits parse_unsigned
    bytes_eq parse_size split_once
inputs_read id = refl

launches :
    (id : Bytes)
    → make_id a_context.new_id a_context.dir_exists (some id) ≡ some id
    → run a_context (requested id)
      ≡ launched id as_json (codes "/proc/self/exe") (codes "run" ∷ the_flags id) false
unfolding run supervisor_exe run_with run_on
launches id e =
    ap (run_on a_context (requested id)) (inputs_read id)
    ∙ ap (run_parent a_context (requested id) the_inputs) e

run_forwards_example :
    (a : RunArgs) × (reader (the_flags (codes "build")) ≡ some a)
    × (a.root ≡ some a_context.root)
    × (run a_context a
        ≡ worker (codes "make" ∷ []) (codes "build") false (some 90000) none (some (120, 40)) none)
unfolding make_id validate_id bytes_eq dashed
run_forwards_example =
    run_forwards reader a_context a_context (requested (codes "build")) the_inputs (codes "build")
      (codes "/proc/self/exe") as_json (the_flags (codes "build")) false reader-IsClap
      (inputs_read (codes "build")) (launches (codes "build") refl) (omega arith) tt (λ e. cc e)
      (record { some_text = λ e. cc e; not_dashed = refl })
      (record { some_text = λ e. cc e; not_dashed = refl }) tt
