-- ===== src/Broker/Worker/Loop.antt =====
-- broker/worker.go: the loop of `Worker.Start`, over what the channel of the sources gives it.
use log_shipper.Base.{ℕ, List, [], ◌∷◌}
use log_shipper.Broker.Target.{Library}
use log_shipper.Broker.Worker.{Worker, Event, Turn, continues, returns, panics, enter_state, turn}

after_turn : (Worker → Turn) → Turn → Turn
after_turn next (continues w) = next w
after_turn next (returns w) = returns w
after_turn next (panics p) = panics p

unfoldable pub loop : Library → List (ℕ × Event) → Worker → Turn
unfolding after_turn
loop lib [] w = continues (enter_state "waiting" w)
loop lib ((now, e) ∷ events) w = after_turn (loop lib events) (turn lib now e w)
