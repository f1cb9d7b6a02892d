-- ===== src/User/Fruit/Messages.antt =====
-- The messages of usr/fruit.c, in every order of the steps.
use advanced_os.Base.{ℕ, ◌+◌}
use advanced_os.User.Fruit.{Plate}
use advanced_os.User.Fruit.Kept.{at_word, at_fruit, at_word_full, at_fruit_full, Kept}

-- Processes that are stopped.
abbrev pub stopped_ones : Plate → ℕ
stopped_ones s =
    at_word s.father + at_fruit s.father + at_word_full s.wordy + at_fruit_full s.fruity
