-- ===== src/Tests/Registry.antt =====
-- Two users log in, and the first is kicked.
use my_music.Base.{pos, codes, false, none}
use my_music.Registry.{Registry, handle_accept, bind_user}

abbrev nobody : Registry
nobody = record { held = λ id. false; users = λ u. none; uid_of = λ id. pos 0 }

abbrev first_session : Registry
first_session = handle_accept (codes "s") nobody

abbrev second_user : Registry
second_user =
    bind_user (pos 2) (codes "t")
      (handle_accept (codes "t") (bind_user (pos 1) (codes "s") first_session))
