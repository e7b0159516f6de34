-- ===== src/Tests/Tables.antt =====
-- A small database: one user with two playlists, three songs of one album, one artist.
use my_music.Base.{
  arith, Text, pos, codes, text_eq, text_eq_refl, true, false, [], ◌∷◌, refl, none, some,
}
use my_music.Logic.{liked_music}
use my_music.Sql.{User, Db, World, Engine, SongRow}
use my_music.Dao.Playlists.{PlaylistSong}
use my_music.Dao.Playlists.Collect.{IsPlaylist, IsHealthy}

abbrev pub liked : Text
liked = liked_music

abbrev pub engine : Engine
engine = record { same_text = text_eq; same_refl = text_eq_refl; accepts_date = λ s. true }

abbrev song_7 : SongRow
song_7 = record {
  id = 7;
  title = codes "a";
  album_id = 2;
  duration = 180;
  track_number = 1;
  file_url = codes "u/a";
}

abbrev pub ann : User
ann = record {
  id = 1;
  name = codes "ann";
  email = codes "a@b";
  password_salt = [];
  password_hash = codes "old";
  icon = [];
  sex = pos 0;
}

abbrev pub tables : Db
tables = record {
  users = ann ∷ [];
  artists = record { id = 5; name = codes "band" } ∷ [];
  albums =
      record { id = 2; title = codes "x"; release_date = []; cover_url_id = 1; description = [] }
      ∷ [];
  album_artists = [];
  songs =
      song_7
      ∷ record song_7 { id = 8; title = codes "b" }
      ∷ record song_7 { id = 9; title = codes "c" }
      ∷ [];
  song_artists = [];
  playlists =
      record {
        id = 3;
        user_id = 1;
        name = liked;
        description = [];
        cover_url_id = 1;
        is_default = true;
      }
      ∷ record {
        id = 4;
        user_id = 1;
        name = codes "mix";
        description = [];
        cover_url_id = 1;
        is_default = false;
      }
      ∷ [];
  playlist_songs =
      record { playlist_id = 3; song_id = 7; position = 1 }
      ∷ record { playlist_id = 4; song_id = 7; position = 1 }
      ∷ record { playlist_id = 3; song_id = 8; position = 2 }
      ∷ [];
  file_map = [];
  next_artist = 6;
  next_album = 3;
  next_song = 10;
  next_playlist = 5;
  next_file = 1;
}

abbrev pub library : World
library = record { db = tables; engine = engine; stopped = false; faults = [] }

-- The third statement fails: a lost connection.
abbrev pub failing : World
failing = record library { faults = none ∷ none ∷ some 2013 ∷ [] }

pub library-IsHealthy : IsHealthy library
library-IsHealthy = record { open_pool = refl; no_faults = refl }

pub library-IsPlaylist : IsPlaylist 3 library
library-IsPlaylist = record {
  numbered = (refl, (refl, tt));
  distinct = ((omega arith, tt), (tt, tt));
}

abbrev pub to_liked : PlaylistSong
to_liked = record { playlist_name = liked; user_id = pos 1; song_id = pos 9; position = pos 0 }
