-- ===== src/TcpConnection/Hooks.antt =====
-- CEventLoop/TcpConnection.h: the `std::function`s of a connection, empty at first, and what sets them.
-- Nothing calls what `setWriteCallback` stores, and nothing sets the call back for a complete write.
use cevent_loop.Prelude.{ℕ, Option, none, Exec}
use cevent_loop.TcpConnection.{Net, Callbacks}

module _ {W : Type 0} where
  unfoldable pub no_callbacks : Callbacks W
  no_callbacks = record {
    connection = none;
    message = none;
    close = none;
    write_complete = none;
    high_water = none;
    write = none;
  }

  unfoldable pub set_connection_callback : Option (Net W → Exec (Net W)) → Callbacks W → Callbacks W
  set_connection_callback f cb = record cb { connection = f }

  unfoldable pub set_message_callback :
      Option (ℕ → Net W → Exec (Net W)) → Callbacks W → Callbacks W
  set_message_callback f cb = record cb { message = f }

  unfoldable pub set_close_callback : Option (Net W → Exec (Net W)) → Callbacks W → Callbacks W
  set_close_callback f cb = record cb { close = f }

  unfoldable pub set_write_callback : Option (Net W → Exec (Net W)) → Callbacks W → Callbacks W
  set_write_callback f cb = record cb { write = f }

  unfoldable pub set_high_water_mark_callback :
      Option (ℕ → Net W → Exec (Net W)) → Callbacks W → Callbacks W
  set_high_water_mark_callback f cb = record cb { high_water = f }
