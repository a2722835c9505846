-- ===== src/Tests/Servers.antt =====
-- network/Server.cpp at concrete inputs.
use avme_wallet.Base.{◌⊎◌, ◌∷◌, ◌≡◌, refl, true, false, []}
use avme_wallet.Server.{
  close, on_write, wrote, Session, do_write, close_session, on_closed, on_accept, new_session, Step,
  accepted, writing, closing, Reach, here, later,
}
use avme_wallet.Server.Lock.{
  IsGuarded, session_one_operation, session_lock_returns, session_failed_close_stuck,
}

abbrev connected : Session
connected = on_accept false (new_session true)

connected_reached : Reach (new_session true) connected
connected_reached = later here (accepted (new_session true) false)

abbrev busy : Session
busy = do_write connected

busy_reached : Reach (new_session true) busy
busy_reached = later connected_reached (writing connected refl)

session_one_operation_example : IsGuarded busy
session_one_operation_example = session_one_operation true busy busy_reached

abbrev failed_write : Session
failed_write = on_write true (record busy { pending = [] })

session_lock_returns_example :
    ((failed_write.pending ≡ busy.pending)
      ⊎ (failed_write.locked ≡ false)
      ⊎ ((busy.pending ≡ close ∷ [])
          × (failed_write ≡ on_closed true (record busy { pending = [] }))))
    × (u : Session) × Step busy u
    × (u.locked ≡ false)
    × (u.pending ≡ [])
session_lock_returns_example =
    session_lock_returns true busy failed_write busy_reached (λ e. cc) (wrote busy true [] [] refl)

abbrev leaving : Session
leaving = close_session connected

abbrev stuck : Session
stuck = on_closed true (record leaving { pending = [] })

session_failed_close_stuck_example : (stuck.locked ≡ true) × (stuck.pending ≡ [])
session_failed_close_stuck_example =
    session_failed_close_stuck true leaving stuck (later connected_reached (closing connected refl))
      refl here
