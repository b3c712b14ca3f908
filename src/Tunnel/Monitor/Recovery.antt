-- ===== src/Tunnel/Monitor/Recovery.antt =====
-- How client/aimless/gtkui.py and client/aimless/tunnel.py bring a lost tunnel up again.
