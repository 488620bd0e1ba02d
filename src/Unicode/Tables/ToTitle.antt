-- ===== src/Unicode/Tables/ToTitle.antt =====
-- irccd/unicode.c: the tables of conversion to title case.
use irccd.Base.{ℕ, List, [], ◌∷◌}

abbrev pub totitler : List (ℕ × ℕ × ℕ)
totitler =
    (0x0061, 0x007a, 1048544)
    ∷ (0x00e0, 0x00f6, 1048544)
    ∷ (0x00f8, 0x00fe, 1048544)
    ∷ (0x023f, 0x0240, 1059391)
    ∷ (0x0256, 0x0257, 1048371)
    ∷ (0x028a, 0x028b, 1048359)
    ∷ (0x037b, 0x037d, 1048706)
    ∷ (0x03ad, 0x03af, 1048539)
    ∷ (0x03b1, 0x03c1, 1048544)
    ∷ (0x03c3, 0x03cb, 1048544)
    ∷ (0x03cd, 0x03ce, 1048513)
    ∷ (0x0430, 0x044f, 1048544)
    ∷ (0x0450, 0x045f, 1048496)
    ∷ (0x0561, 0x0586, 1048528)
    ∷ (0x13f8, 0x13fd, 1048568)
    ∷ (0x1c83, 0x1c84, 1042334)
    ∷ (0x1f00, 0x1f07, 1048584)
    ∷ (0x1f10, 0x1f15, 1048584)
    ∷ (0x1f20, 0x1f27, 1048584)
    ∷ (0x1f30, 0x1f37, 1048584)
    ∷ (0x1f40, 0x1f45, 1048584)
    ∷ (0x1f60, 0x1f67, 1048584)
    ∷ (0x1f70, 0x1f71, 1048650)
    ∷ (0x1f72, 0x1f75, 1048662)
    ∷ (0x1f76, 0x1f77, 1048676)
    ∷ (0x1f78, 0x1f79, 1048704)
    ∷ (0x1f7a, 0x1f7b, 1048688)
    ∷ (0x1f7c, 0x1f7d, 1048702)
    ∷ (0x1f80, 0x1f87, 1048584)
    ∷ (0x1f90, 0x1f97, 1048584)
    ∷ (0x1fa0, 0x1fa7, 1048584)
    ∷ (0x1fb0, 0x1fb1, 1048584)
    ∷ (0x1fd0, 0x1fd1, 1048584)
    ∷ (0x1fe0, 0x1fe1, 1048584)
    ∷ (0x2170, 0x217f, 1048560)
    ∷ (0x24d0, 0x24e9, 1048550)
    ∷ (0x2c30, 0x2c5e, 1048528)
    ∷ (0x2d00, 0x2d25, 1041312)
    ∷ (0xab70, 0xabbf, 1009712)
    ∷ (0xff41, 0xff5a, 1048544)
    ∷ (0x10428, 0x1044f, 1048536)
    ∷ (0x104d8, 0x104fb, 1048536)
    ∷ (0x10cc0, 0x10cf2, 1048512)
    ∷ (0x118c0, 0x118df, 1048544)
    ∷ (0x16e60, 0x16e7f, 1048544)
    ∷ (0x1e922, 0x1e943, 1048542)
    ∷ []

abbrev pub totitles : List (ℕ × ℕ)
totitles =
    (0x00b5, 1049319)
    ∷ (0x00ff, 1048697)
    ∷ (0x0101, 1048575)
    ∷ (0x0103, 1048575)
    ∷ (0x0105, 1048575)
    ∷ (0x0107, 1048575)
    ∷ (0x0109, 1048575)
    ∷ (0x010b, 1048575)
    ∷ (0x010d, 1048575)
    ∷ (0x010f, 1048575)
    ∷ (0x0111, 1048575)
    ∷ (0x0113, 1048575)
    ∷ (0x0115, 1048575)
    ∷ (0x0117, 1048575)
    ∷ (0x0119, 1048575)
    ∷ (0x011b, 1048575)
    ∷ (0x011d, 1048575)
    ∷ (0x011f, 1048575)
    ∷ (0x0121, 1048575)
    ∷ (0x0123, 1048575)
    ∷ (0x0125, 1048575)
    ∷ (0x0127, 1048575)
    ∷ (0x0129, 1048575)
    ∷ (0x012b, 1048575)
    ∷ (0x012d, 1048575)
    ∷ (0x012f, 1048575)
    ∷ (0x0131, 1048344)
    ∷ (0x0133, 1048575)
    ∷ (0x0135, 1048575)
    ∷ (0x0137, 1048575)
    ∷ (0x013a, 1048575)
    ∷ (0x013c, 1048575)
    ∷ (0x013e, 1048575)
    ∷ (0x0140, 1048575)
    ∷ (0x0142, 1048575)
    ∷ (0x0144, 1048575)
    ∷ (0x0146, 1048575)
    ∷ (0x0148, 1048575)
    ∷ (0x014b, 1048575)
    ∷ (0x014d, 1048575)
    ∷ (0x014f, 1048575)
    ∷ (0x0151, 1048575)
    ∷ (0x0153, 1048575)
    ∷ (0x0155, 1048575)
    ∷ (0x0157, 1048575)
    ∷ (0x0159, 1048575)
    ∷ (0x015b, 1048575)
    ∷ (0x015d, 1048575)
    ∷ (0x015f, 1048575)
    ∷ (0x0161, 1048575)
    ∷ (0x0163, 1048575)
    ∷ (0x0165, 1048575)
    ∷ (0x0167, 1048575)
    ∷ (0x0169, 1048575)
    ∷ (0x016b, 1048575)
    ∷ (0x016d, 1048575)
    ∷ (0x016f, 1048575)
    ∷ (0x0171, 1048575)
    ∷ (0x0173, 1048575)
    ∷ (0x0175, 1048575)
    ∷ (0x0177, 1048575)
    ∷ (0x017a, 1048575)
    ∷ (0x017c, 1048575)
    ∷ (0x017e, 1048575)
    ∷ (0x017f, 1048276)
    ∷ (0x0180, 1048771)
    ∷ (0x0183, 1048575)
    ∷ (0x0185, 1048575)
    ∷ (0x0188, 1048575)
    ∷ (0x018c, 1048575)
    ∷ (0x0192, 1048575)
    ∷ (0x0195, 1048673)
    ∷ (0x0199, 1048575)
    ∷ (0x019a, 1048739)
    ∷ (0x019e, 1048706)
    ∷ (0x01a1, 1048575)
    ∷ (0x01a3, 1048575)
    ∷ (0x01a5, 1048575)
    ∷ (0x01a8, 1048575)
    ∷ (0x01ad, 1048575)
    ∷ (0x01b0, 1048575)
    ∷ (0x01b4, 1048575)
    ∷ (0x01b6, 1048575)
    ∷ (0x01b9, 1048575)
    ∷ (0x01bd, 1048575)
    ∷ (0x01bf, 1048632)
    ∷ (0x01c4, 1048577)
    ∷ (0x01c6, 1048575)
    ∷ (0x01c7, 1048577)
    ∷ (0x01c9, 1048575)
    ∷ (0x01ca, 1048577)
    ∷ (0x01cc, 1048575)
    ∷ (0x01ce, 1048575)
    ∷ (0x01d0, 1048575)
    ∷ (0x01d2, 1048575)
    ∷ (0x01d4, 1048575)
    ∷ (0x01d6, 1048575)
    ∷ (0x01d8, 1048575)
    ∷ (0x01da, 1048575)
    ∷ (0x01dc, 1048575)
    ∷ (0x01dd, 1048497)
    ∷ (0x01df, 1048575)
    ∷ (0x01e1, 1048575)
    ∷ (0x01e3, 1048575)
    ∷ (0x01e5, 1048575)
    ∷ (0x01e7, 1048575)
    ∷ (0x01e9, 1048575)
    ∷ (0x01eb, 1048575)
    ∷ (0x01ed, 1048575)
    ∷ (0x01ef, 1048575)
    ∷ (0x01f1, 1048577)
    ∷ (0x01f3, 1048575)
    ∷ (0x01f5, 1048575)
    ∷ (0x01f9, 1048575)
    ∷ (0x01fb, 1048575)
    ∷ (0x01fd, 1048575)
    ∷ (0x01ff, 1048575)
    ∷ (0x0201, 1048575)
    ∷ (0x0203, 1048575)
    ∷ (0x0205, 1048575)
    ∷ (0x0207, 1048575)
    ∷ (0x0209, 1048575)
    ∷ (0x020b, 1048575)
    ∷ (0x020d, 1048575)
    ∷ (0x020f, 1048575)
    ∷ (0x0211, 1048575)
    ∷ (0x0213, 1048575)
    ∷ (0x0215, 1048575)
    ∷ (0x0217, 1048575)
    ∷ (0x0219, 1048575)
    ∷ (0x021b, 1048575)
    ∷ (0x021d, 1048575)
    ∷ (0x021f, 1048575)
    ∷ (0x0223, 1048575)
    ∷ (0x0225, 1048575)
    ∷ (0x0227, 1048575)
    ∷ (0x0229, 1048575)
    ∷ (0x022b, 1048575)
    ∷ (0x022d, 1048575)
    ∷ (0x022f, 1048575)
    ∷ (0x0231, 1048575)
    ∷ (0x0233, 1048575)
    ∷ (0x023c, 1048575)
    ∷ (0x0242, 1048575)
    ∷ (0x0247, 1048575)
    ∷ (0x0249, 1048575)
    ∷ (0x024b, 1048575)
    ∷ (0x024d, 1048575)
    ∷ (0x024f, 1048575)
    ∷ (0x0250, 1059359)
    ∷ (0x0251, 1059356)
    ∷ (0x0252, 1059358)
    ∷ (0x0253, 1048366)
    ∷ (0x0254, 1048370)
    ∷ (0x0259, 1048374)
    ∷ (0x025b, 1048373)
    ∷ (0x025c, 1090895)
    ∷ (0x0260, 1048371)
    ∷ (0x0261, 1090891)
    ∷ (0x0263, 1048369)
    ∷ (0x0265, 1090856)
    ∷ (0x0266, 1090884)
    ∷ (0x0268, 1048367)
    ∷ (0x0269, 1048365)
    ∷ (0x026a, 1090884)
    ∷ (0x026b, 1059319)
    ∷ (0x026c, 1090881)
    ∷ (0x026f, 1048365)
    ∷ (0x0271, 1059325)
    ∷ (0x0272, 1048363)
    ∷ (0x0275, 1048362)
    ∷ (0x027d, 1059303)
    ∷ (0x0280, 1048358)
    ∷ (0x0282, 1090883)
    ∷ (0x0283, 1048358)
    ∷ (0x0287, 1090858)
    ∷ (0x0288, 1048358)
    ∷ (0x0289, 1048507)
    ∷ (0x028c, 1048505)
    ∷ (0x0292, 1048357)
    ∷ (0x029d, 1090837)
    ∷ (0x029e, 1090834)
    ∷ (0x0345, 1048660)
    ∷ (0x0371, 1048575)
    ∷ (0x0373, 1048575)
    ∷ (0x0377, 1048575)
    ∷ (0x03ac, 1048538)
    ∷ (0x03c2, 1048545)
    ∷ (0x03cc, 1048512)
    ∷ (0x03d0, 1048514)
    ∷ (0x03d1, 1048519)
    ∷ (0x03d5, 1048529)
    ∷ (0x03d6, 1048522)
    ∷ (0x03d7, 1048568)
    ∷ (0x03d9, 1048575)
    ∷ (0x03db, 1048575)
    ∷ (0x03dd, 1048575)
    ∷ (0x03df, 1048575)
    ∷ (0x03e1, 1048575)
    ∷ (0x03e3, 1048575)
    ∷ (0x03e5, 1048575)
    ∷ (0x03e7, 1048575)
    ∷ (0x03e9, 1048575)
    ∷ (0x03eb, 1048575)
    ∷ (0x03ed, 1048575)
    ∷ (0x03ef, 1048575)
    ∷ (0x03f0, 1048490)
    ∷ (0x03f1, 1048496)
    ∷ (0x03f2, 1048583)
    ∷ (0x03f3, 1048460)
    ∷ (0x03f5, 1048480)
    ∷ (0x03f8, 1048575)
    ∷ (0x03fb, 1048575)
    ∷ (0x0461, 1048575)
    ∷ (0x0463, 1048575)
    ∷ (0x0465, 1048575)
    ∷ (0x0467, 1048575)
    ∷ (0x0469, 1048575)
    ∷ (0x046b, 1048575)
    ∷ (0x046d, 1048575)
    ∷ (0x046f, 1048575)
    ∷ (0x0471, 1048575)
    ∷ (0x0473, 1048575)
    ∷ (0x0475, 1048575)
    ∷ (0x0477, 1048575)
    ∷ (0x0479, 1048575)
    ∷ (0x047b, 1048575)
    ∷ (0x047d, 1048575)
    ∷ (0x047f, 1048575)
    ∷ (0x0481, 1048575)
    ∷ (0x048b, 1048575)
    ∷ (0x048d, 1048575)
    ∷ (0x048f, 1048575)
    ∷ (0x0491, 1048575)
    ∷ (0x0493, 1048575)
    ∷ (0x0495, 1048575)
    ∷ (0x0497, 1048575)
    ∷ (0x0499, 1048575)
    ∷ (0x049b, 1048575)
    ∷ (0x049d, 1048575)
    ∷ (0x049f, 1048575)
    ∷ (0x04a1, 1048575)
    ∷ (0x04a3, 1048575)
    ∷ (0x04a5, 1048575)
    ∷ (0x04a7, 1048575)
    ∷ (0x04a9, 1048575)
    ∷ (0x04ab, 1048575)
    ∷ (0x04ad, 1048575)
    ∷ (0x04af, 1048575)
    ∷ (0x04b1, 1048575)
    ∷ (0x04b3, 1048575)
    ∷ (0x04b5, 1048575)
    ∷ (0x04b7, 1048575)
    ∷ (0x04b9, 1048575)
    ∷ (0x04bb, 1048575)
    ∷ (0x04bd, 1048575)
    ∷ (0x04bf, 1048575)
    ∷ (0x04c2, 1048575)
    ∷ (0x04c4, 1048575)
    ∷ (0x04c6, 1048575)
    ∷ (0x04c8, 1048575)
    ∷ (0x04ca, 1048575)
    ∷ (0x04cc, 1048575)
    ∷ (0x04ce, 1048575)
    ∷ (0x04cf, 1048561)
    ∷ (0x04d1, 1048575)
    ∷ (0x04d3, 1048575)
    ∷ (0x04d5, 1048575)
    ∷ (0x04d7, 1048575)
    ∷ (0x04d9, 1048575)
    ∷ (0x04db, 1048575)
    ∷ (0x04dd, 1048575)
    ∷ (0x04df, 1048575)
    ∷ (0x04e1, 1048575)
    ∷ (0x04e3, 1048575)
    ∷ (0x04e5, 1048575)
    ∷ (0x04e7, 1048575)
    ∷ (0x04e9, 1048575)
    ∷ (0x04eb, 1048575)
    ∷ (0x04ed, 1048575)
    ∷ (0x04ef, 1048575)
    ∷ (0x04f1, 1048575)
    ∷ (0x04f3, 1048575)
    ∷ (0x04f5, 1048575)
    ∷ (0x04f7, 1048575)
    ∷ (0x04f9, 1048575)
    ∷ (0x04fb, 1048575)
    ∷ (0x04fd, 1048575)
    ∷ (0x04ff, 1048575)
    ∷ (0x0501, 1048575)
    ∷ (0x0503, 1048575)
    ∷ (0x0505, 1048575)
    ∷ (0x0507, 1048575)
    ∷ (0x0509, 1048575)
    ∷ (0x050b, 1048575)
    ∷ (0x050d, 1048575)
    ∷ (0x050f, 1048575)
    ∷ (0x0511, 1048575)
    ∷ (0x0513, 1048575)
    ∷ (0x0515, 1048575)
    ∷ (0x0517, 1048575)
    ∷ (0x0519, 1048575)
    ∷ (0x051b, 1048575)
    ∷ (0x051d, 1048575)
    ∷ (0x051f, 1048575)
    ∷ (0x0521, 1048575)
    ∷ (0x0523, 1048575)
    ∷ (0x0525, 1048575)
    ∷ (0x0527, 1048575)
    ∷ (0x0529, 1048575)
    ∷ (0x052b, 1048575)
    ∷ (0x052d, 1048575)
    ∷ (0x052f, 1048575)
    ∷ (0x1c80, 1042322)
    ∷ (0x1c81, 1042323)
    ∷ (0x1c82, 1042332)
    ∷ (0x1c85, 1042333)
    ∷ (0x1c86, 1042340)
    ∷ (0x1c87, 1042395)
    ∷ (0x1c88, 1083842)
    ∷ (0x1d79, 1083908)
    ∷ (0x1d7d, 1052390)
    ∷ (0x1d8e, 1083960)
    ∷ (0x1e01, 1048575)
    ∷ (0x1e03, 1048575)
    ∷ (0x1e05, 1048575)
    ∷ (0x1e07, 1048575)
    ∷ (0x1e09, 1048575)
    ∷ (0x1e0b, 1048575)
    ∷ (0x1e0d, 1048575)
    ∷ (0x1e0f, 1048575)
    ∷ (0x1e11, 1048575)
    ∷ (0x1e13, 1048575)
    ∷ (0x1e15, 1048575)
    ∷ (0x1e17, 1048575)
    ∷ (0x1e19, 1048575)
    ∷ (0x1e1b, 1048575)
    ∷ (0x1e1d, 1048575)
    ∷ (0x1e1f, 1048575)
    ∷ (0x1e21, 1048575)
    ∷ (0x1e23, 1048575)
    ∷ (0x1e25, 1048575)
    ∷ (0x1e27, 1048575)
    ∷ (0x1e29, 1048575)
    ∷ (0x1e2b, 1048575)
    ∷ (0x1e2d, 1048575)
    ∷ (0x1e2f, 1048575)
    ∷ (0x1e31, 1048575)
    ∷ (0x1e33, 1048575)
    ∷ (0x1e35, 1048575)
    ∷ (0x1e37, 1048575)
    ∷ (0x1e39, 1048575)
    ∷ (0x1e3b, 1048575)
    ∷ (0x1e3d, 1048575)
    ∷ (0x1e3f, 1048575)
    ∷ (0x1e41, 1048575)
    ∷ (0x1e43, 1048575)
    ∷ (0x1e45, 1048575)
    ∷ (0x1e47, 1048575)
    ∷ (0x1e49, 1048575)
    ∷ (0x1e4b, 1048575)
    ∷ (0x1e4d, 1048575)
    ∷ (0x1e4f, 1048575)
    ∷ (0x1e51, 1048575)
    ∷ (0x1e53, 1048575)
    ∷ (0x1e55, 1048575)
    ∷ (0x1e57, 1048575)
    ∷ (0x1e59, 1048575)
    ∷ (0x1e5b, 1048575)
    ∷ (0x1e5d, 1048575)
    ∷ (0x1e5f, 1048575)
    ∷ (0x1e61, 1048575)
    ∷ (0x1e63, 1048575)
    ∷ (0x1e65, 1048575)
    ∷ (0x1e67, 1048575)
    ∷ (0x1e69, 1048575)
    ∷ (0x1e6b, 1048575)
    ∷ (0x1e6d, 1048575)
    ∷ (0x1e6f, 1048575)
    ∷ (0x1e71, 1048575)
    ∷ (0x1e73, 1048575)
    ∷ (0x1e75, 1048575)
    ∷ (0x1e77, 1048575)
    ∷ (0x1e79, 1048575)
    ∷ (0x1e7b, 1048575)
    ∷ (0x1e7d, 1048575)
    ∷ (0x1e7f, 1048575)
    ∷ (0x1e81, 1048575)
    ∷ (0x1e83, 1048575)
    ∷ (0x1e85, 1048575)
    ∷ (0x1e87, 1048575)
    ∷ (0x1e89, 1048575)
    ∷ (0x1e8b, 1048575)
    ∷ (0x1e8d, 1048575)
    ∷ (0x1e8f, 1048575)
    ∷ (0x1e91, 1048575)
    ∷ (0x1e93, 1048575)
    ∷ (0x1e95, 1048575)
    ∷ (0x1e9b, 1048517)
    ∷ (0x1ea1, 1048575)
    ∷ (0x1ea3, 1048575)
    ∷ (0x1ea5, 1048575)
    ∷ (0x1ea7, 1048575)
    ∷ (0x1ea9, 1048575)
    ∷ (0x1eab, 1048575)
    ∷ (0x1ead, 1048575)
    ∷ (0x1eaf, 1048575)
    ∷ (0x1eb1, 1048575)
    ∷ (0x1eb3, 1048575)
    ∷ (0x1eb5, 1048575)
    ∷ (0x1eb7, 1048575)
    ∷ (0x1eb9, 1048575)
    ∷ (0x1ebb, 1048575)
    ∷ (0x1ebd, 1048575)
    ∷ (0x1ebf, 1048575)
    ∷ (0x1ec1, 1048575)
    ∷ (0x1ec3, 1048575)
    ∷ (0x1ec5, 1048575)
    ∷ (0x1ec7, 1048575)
    ∷ (0x1ec9, 1048575)
    ∷ (0x1ecb, 1048575)
    ∷ (0x1ecd, 1048575)
    ∷ (0x1ecf, 1048575)
    ∷ (0x1ed1, 1048575)
    ∷ (0x1ed3, 1048575)
    ∷ (0x1ed5, 1048575)
    ∷ (0x1ed7, 1048575)
    ∷ (0x1ed9, 1048575)
    ∷ (0x1edb, 1048575)
    ∷ (0x1edd, 1048575)
    ∷ (0x1edf, 1048575)
    ∷ (0x1ee1, 1048575)
    ∷ (0x1ee3, 1048575)
    ∷ (0x1ee5, 1048575)
    ∷ (0x1ee7, 1048575)
    ∷ (0x1ee9, 1048575)
    ∷ (0x1eeb, 1048575)
    ∷ (0x1eed, 1048575)
    ∷ (0x1eef, 1048575)
    ∷ (0x1ef1, 1048575)
    ∷ (0x1ef3, 1048575)
    ∷ (0x1ef5, 1048575)
    ∷ (0x1ef7, 1048575)
    ∷ (0x1ef9, 1048575)
    ∷ (0x1efb, 1048575)
    ∷ (0x1efd, 1048575)
    ∷ (0x1eff, 1048575)
    ∷ (0x1f51, 1048584)
    ∷ (0x1f53, 1048584)
    ∷ (0x1f55, 1048584)
    ∷ (0x1f57, 1048584)
    ∷ (0x1fb3, 1048585)
    ∷ (0x1fbe, 1041371)
    ∷ (0x1fc3, 1048585)
    ∷ (0x1fe5, 1048583)
    ∷ (0x1ff3, 1048585)
    ∷ (0x214e, 1048548)
    ∷ (0x2184, 1048575)
    ∷ (0x2c61, 1048575)
    ∷ (0x2c65, 1037781)
    ∷ (0x2c66, 1037784)
    ∷ (0x2c68, 1048575)
    ∷ (0x2c6a, 1048575)
    ∷ (0x2c6c, 1048575)
    ∷ (0x2c73, 1048575)
    ∷ (0x2c76, 1048575)
    ∷ (0x2c81, 1048575)
    ∷ (0x2c83, 1048575)
    ∷ (0x2c85, 1048575)
    ∷ (0x2c87, 1048575)
    ∷ (0x2c89, 1048575)
    ∷ (0x2c8b, 1048575)
    ∷ (0x2c8d, 1048575)
    ∷ (0x2c8f, 1048575)
    ∷ (0x2c91, 1048575)
    ∷ (0x2c93, 1048575)
    ∷ (0x2c95, 1048575)
    ∷ (0x2c97, 1048575)
    ∷ (0x2c99, 1048575)
    ∷ (0x2c9b, 1048575)
    ∷ (0x2c9d, 1048575)
    ∷ (0x2c9f, 1048575)
    ∷ (0x2ca1, 1048575)
    ∷ (0x2ca3, 1048575)
    ∷ (0x2ca5, 1048575)
    ∷ (0x2ca7, 1048575)
    ∷ (0x2ca9, 1048575)
    ∷ (0x2cab, 1048575)
    ∷ (0x2cad, 1048575)
    ∷ (0x2caf, 1048575)
    ∷ (0x2cb1, 1048575)
    ∷ (0x2cb3, 1048575)
    ∷ (0x2cb5, 1048575)
    ∷ (0x2cb7, 1048575)
    ∷ (0x2cb9, 1048575)
    ∷ (0x2cbb, 1048575)
    ∷ (0x2cbd, 1048575)
    ∷ (0x2cbf, 1048575)
    ∷ (0x2cc1, 1048575)
    ∷ (0x2cc3, 1048575)
    ∷ (0x2cc5, 1048575)
    ∷ (0x2cc7, 1048575)
    ∷ (0x2cc9, 1048575)
    ∷ (0x2ccb, 1048575)
    ∷ (0x2ccd, 1048575)
    ∷ (0x2ccf, 1048575)
    ∷ (0x2cd1, 1048575)
    ∷ (0x2cd3, 1048575)
    ∷ (0x2cd5, 1048575)
    ∷ (0x2cd7, 1048575)
    ∷ (0x2cd9, 1048575)
    ∷ (0x2cdb, 1048575)
    ∷ (0x2cdd, 1048575)
    ∷ (0x2cdf, 1048575)
    ∷ (0x2ce1, 1048575)
    ∷ (0x2ce3, 1048575)
    ∷ (0x2cec, 1048575)
    ∷ (0x2cee, 1048575)
    ∷ (0x2cf3, 1048575)
    ∷ (0x2d27, 1041312)
    ∷ (0x2d2d, 1041312)
    ∷ (0xa641, 1048575)
    ∷ (0xa643, 1048575)
    ∷ (0xa645, 1048575)
    ∷ (0xa647, 1048575)
    ∷ (0xa649, 1048575)
    ∷ (0xa64b, 1048575)
    ∷ (0xa64d, 1048575)
    ∷ (0xa64f, 1048575)
    ∷ (0xa651, 1048575)
    ∷ (0xa653, 1048575)
    ∷ (0xa655, 1048575)
    ∷ (0xa657, 1048575)
    ∷ (0xa659, 1048575)
    ∷ (0xa65b, 1048575)
    ∷ (0xa65d, 1048575)
    ∷ (0xa65f, 1048575)
    ∷ (0xa661, 1048575)
    ∷ (0xa663, 1048575)
    ∷ (0xa665, 1048575)
    ∷ (0xa667, 1048575)
    ∷ (0xa669, 1048575)
    ∷ (0xa66b, 1048575)
    ∷ (0xa66d, 1048575)
    ∷ (0xa681, 1048575)
    ∷ (0xa683, 1048575)
    ∷ (0xa685, 1048575)
    ∷ (0xa687, 1048575)
    ∷ (0xa689, 1048575)
    ∷ (0xa68b, 1048575)
    ∷ (0xa68d, 1048575)
    ∷ (0xa68f, 1048575)
    ∷ (0xa691, 1048575)
    ∷ (0xa693, 1048575)
    ∷ (0xa695, 1048575)
    ∷ (0xa697, 1048575)
    ∷ (0xa699, 1048575)
    ∷ (0xa69b, 1048575)
    ∷ (0xa723, 1048575)
    ∷ (0xa725, 1048575)
    ∷ (0xa727, 1048575)
    ∷ (0xa729, 1048575)
    ∷ (0xa72b, 1048575)
    ∷ (0xa72d, 1048575)
    ∷ (0xa72f, 1048575)
    ∷ (0xa733, 1048575)
    ∷ (0xa735, 1048575)
    ∷ (0xa737, 1048575)
    ∷ (0xa739, 1048575)
    ∷ (0xa73b, 1048575)
    ∷ (0xa73d, 1048575)
    ∷ (0xa73f, 1048575)
    ∷ (0xa741, 1048575)
    ∷ (0xa743, 1048575)
    ∷ (0xa745, 1048575)
    ∷ (0xa747, 1048575)
    ∷ (0xa749, 1048575)
    ∷ (0xa74b, 1048575)
    ∷ (0xa74d, 1048575)
    ∷ (0xa74f, 1048575)
    ∷ (0xa751, 1048575)
    ∷ (0xa753, 1048575)
    ∷ (0xa755, 1048575)
    ∷ (0xa757, 1048575)
    ∷ (0xa759, 1048575)
    ∷ (0xa75b, 1048575)
    ∷ (0xa75d, 1048575)
    ∷ (0xa75f, 1048575)
    ∷ (0xa761, 1048575)
    ∷ (0xa763, 1048575)
    ∷ (0xa765, 1048575)
    ∷ (0xa767, 1048575)
    ∷ (0xa769, 1048575)
    ∷ (0xa76b, 1048575)
    ∷ (0xa76d, 1048575)
    ∷ (0xa76f, 1048575)
    ∷ (0xa77a, 1048575)
    ∷ (0xa77c, 1048575)
    ∷ (0xa77f, 1048575)
    ∷ (0xa781, 1048575)
    ∷ (0xa783, 1048575)
    ∷ (0xa785, 1048575)
    ∷ (0xa787, 1048575)
    ∷ (0xa78c, 1048575)
    ∷ (0xa791, 1048575)
    ∷ (0xa793, 1048575)
    ∷ (0xa794, 1048624)
    ∷ (0xa797, 1048575)
    ∷ (0xa799, 1048575)
    ∷ (0xa79b, 1048575)
    ∷ (0xa79d, 1048575)
    ∷ (0xa79f, 1048575)
    ∷ (0xa7a1, 1048575)
    ∷ (0xa7a3, 1048575)
    ∷ (0xa7a5, 1048575)
    ∷ (0xa7a7, 1048575)
    ∷ (0xa7a9, 1048575)
    ∷ (0xa7b5, 1048575)
    ∷ (0xa7b7, 1048575)
    ∷ (0xa7b9, 1048575)
    ∷ (0xa7bb, 1048575)
    ∷ (0xa7bd, 1048575)
    ∷ (0xa7bf, 1048575)
    ∷ (0xa7c3, 1048575)
    ∷ (0xa7c8, 1048575)
    ∷ (0xa7ca, 1048575)
    ∷ (0xa7f6, 1048575)
    ∷ (0xab53, 1047648)
    ∷ []
