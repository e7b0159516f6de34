-- ===== src/Tests/Dispatch.antt =====
-- A login and an unknown message that come while the thread waits.
use my_music.Base.{refl, false, [], ◌∷◌, codes}
use my_music.Wire.{Message}
use my_music.Dispatch.{LogicQueue, asleep, run_step}
use my_music.Dispatch.Kept.{Steps, idle_queue, begin, next, ran, pushed_one}
use my_music.Dispatch.Served.{Serves, Steps-Serves}

abbrev login : Message
login = record { id = 1004; body = codes "{}" }

abbrev unknown : Message
unknown = record { id = 77; body = [] }

abbrev two_came : LogicQueue
two_came = record {
  msg_que = login ∷ unknown ∷ [];
  b_stop = false;
  worker = asleep;
  notices = 1;
  handled = [];
  pushed = login ∷ unknown ∷ [];
}

two_came-Steps : Steps idle_queue two_came
unfolding run_step
two_came-Steps =
    next (next (next (next begin ran) ran) (pushed_one login refl)) (pushed_one unknown refl)

Steps-Serves_example : Serves two_came
Steps-Serves_example = Steps-Serves two_came-Steps refl
