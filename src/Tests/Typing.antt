-- ===== src/Tests/Typing.antt =====
-- Input of an attached client: src/attach.rs.
use babysit.Prelude.{◌≡◌, [], ◌∷◌, ◌++◌, codes}
use babysit.Detach.{default, push, detach_key}
use babysit.Detach.Conserve.{Accounts}
use babysit.Detach.Presses.{Withholds, nothing, push-Withholds}
use babysit.Detach.Chunks.{then_push, push-append}

push-Withholds_example :
    Accounts
      (detach_key ∷ detach_key ∷ codes "ab")
      (push default (detach_key ∷ detach_key ∷ codes "ab"))
    × Withholds (push default (detach_key ∷ detach_key ∷ codes "ab")).0.withheld
push-Withholds_example = push-Withholds default (detach_key ∷ detach_key ∷ codes "ab") nothing

push-append_example :
    push default (codes "a" ++ detach_key ∷ [])
    ≡ then_push (push default (codes "a")) (detach_key ∷ [])
push-append_example = push-append default (codes "a") (detach_key ∷ [])
