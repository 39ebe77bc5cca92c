-- ===== src/Thread/Tests.antt =====
-- Calls of a thread, and the theorem about them.
use summer.Prelude.{◌≡◌, refl, true, false, [], ◌∷◌, ok, aborted, if◌then◌else◌}
use summer.Thread.{Thread, start, join}
use summer.Thread.Calls.{starts, joins, calls, calls-alternate}

abbrev thread : Thread
thread = record { started = false; tid = 0; name = [] }

restarts : calls thread (starts ∷ joins ∷ starts ∷ []) ≡ ok (record thread { started = true })
unfolding start join
restarts = refl

calls-alternate_example :
    calls thread (starts ∷ starts ∷ [])
    ≡ (if false then ok (record thread { started = true }) else aborted)
calls-alternate_example = calls-alternate thread (starts ∷ starts ∷ [])
