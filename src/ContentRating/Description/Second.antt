-- ===== src/ContentRating/Description/Second.antt =====
-- src/as-content-rating.c: the second half of the table `oars_descriptions`.
use appstream.Base.{none, some, List, [], ◌∷◌, codes}
use appstream.ContentRating.Description.{Description}

abbrev pub second_descriptions : List Description
second_descriptions =
    (record {
      id = codes "money-gambling";
      desc_none = "No gambling of any kind";
      desc_mild = some "Gambling on random events using tokens or credits";
      desc_moderate = some "Gambling using “play” money";
      desc_intense = some "Gambling using real money";
    })
    ∷ (record {
      id = codes "money-purchasing";
      desc_none = "No ability to spend money";
      desc_mild = some "Users are encouraged to donate real money";
      desc_moderate = none;
      desc_intense = some "Ability to spend real money in-app";
    })
    ∷ (record {
      id = codes "social-chat";
      desc_none = "No way to chat with other users";
      desc_mild = some "User-to-user interactions without chat functionality";
      desc_moderate = some "Moderated chat functionality between users";
      desc_intense = some "Uncontrolled chat functionality between users";
    })
    ∷ (record {
      id = codes "social-audio";
      desc_none = "No way to talk with other users";
      desc_mild = some "Uncontrolled audio or video chat functionality between users";
      desc_moderate = none;
      desc_intense = none;
    })
    ∷ (record {
      id = codes "social-contacts";
      desc_none = "No sharing of social network usernames or email addresses";
      desc_mild = some "Sharing social network usernames or email addresses";
      desc_moderate = none;
      desc_intense = none;
    })
    ∷ (record {
      id = codes "social-info";
      desc_none = "No sharing of user information with third parties";
      desc_mild = some "Checking for the latest application version";
      desc_moderate = some "Sharing diagnostic data that does not let others identify the user";
      desc_intense = some "Sharing information that lets others identify the user";
    })
    ∷ (record {
      id = codes "social-location";
      desc_none = "No sharing of physical location with other users";
      desc_mild = some "Sharing physical location with other users";
      desc_moderate = none;
      desc_intense = none;
    })
    ∷ (record {
      id = codes "sex-homosexuality";
      desc_none = "No references to homosexuality";
      desc_mild = some "Indirect references to homosexuality";
      desc_moderate = some "Kissing between people of the same gender";
      desc_intense = some "Graphic sexual behavior between people of the same gender";
    })
    ∷ (record {
      id = codes "sex-prostitution";
      desc_none = "No references to prostitution";
      desc_mild = some "Indirect references to prostitution";
      desc_moderate = some "Direct references to prostitution";
      desc_intense = some "Graphic depictions of the act of prostitution";
    })
    ∷ (record {
      id = codes "sex-adultery";
      desc_none = "No references to adultery";
      desc_mild = some "Indirect references to adultery";
      desc_moderate = some "Direct references to adultery";
      desc_intense = some "Graphic depictions of the act of adultery";
    })
    ∷ (record {
      id = codes "sex-appearance";
      desc_none = "No sexualized characters";
      desc_mild = none;
      desc_moderate = some "Scantily clad human characters";
      desc_intense = some "Overtly sexualized human characters";
    })
    ∷ (record {
      id = codes "violence-worship";
      desc_none = "No references to desecration";
      desc_mild = some "Depictions of or references to historical desecration";
      desc_moderate = some "Depictions of modern-day human desecration";
      desc_intense = some "Graphic depictions of modern-day desecration";
    })
    ∷ (record {
      id = codes "violence-desecration";
      desc_none = "No visible dead human remains";
      desc_mild = some "Visible dead human remains";
      desc_moderate = some "Dead human remains that are exposed to the elements";
      desc_intense = some "Graphic depictions of desecration of human bodies";
    })
    ∷ (record {
      id = codes "violence-slavery";
      desc_none = "No references to slavery";
      desc_mild = some "Depictions of or references to historical slavery";
      desc_moderate = some "Depictions of modern-day slavery";
      desc_intense = some "Graphic depictions of modern-day slavery";
    })
    ∷ []
